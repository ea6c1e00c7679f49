-- ===== src/Exchange/Lookups.antt =====
-- Fields of a document as a reader shows them.
use chat_hub.Prelude.{◌≡◌, Bytes, some}
use chat_hub.Codec.{JsonLibrary, kind_of, string_at, object_at}
use chat_hub.Codec.Fields.{HasCapabilities}
use chat_hub.Exchange.{Views, AreCapabilities}
use chat_hub.Exchange.Texts.{AreTexts-texts, length-texts, of_values-value}
use chat_hub.Hello.{CapabilitySet}
use chat_hub.Json.{string, array, object, Fields, lookup, texts, each_item}

module _ {Value Object : Type 0} {json : JsonLibrary Value Object} (views : Views json) where
  pub string_at_view :
      (fs : Fields) (key : _) (t : Bytes)
      → lookup key fs ≡ some (string t)
      → string_at json (views.view_fields fs) key ≡ some t
  unfolding kind_of
  string_at_view fs key t h = rw (views.of_field fs key, h) (views.of_string t)

  pub object_at_view :
      (fs : Fields) (key : _) (o : Fields)
      → lookup key fs ≡ some (object o)
      → object_at json (views.view_fields fs) key ≡ some (views.view_fields o)
  unfolding kind_of
  object_at_view fs key o h = rw (views.of_field fs key, h) (views.of_object o)

  pub capabilities_view :
      (fs : Fields) (set : CapabilitySet)
      → AreCapabilities set
      → lookup "capabilities" fs ≡ some (array (texts set.value))
      → HasCapabilities json (views.view_fields fs) set
  unfolding kind_of
  capabilities_view fs set has h = (
    each_item views.view (texts set.value),
    rw (views.of_field fs "capabilities", h) (views.of_array (texts set.value)),
    rw (length-texts views.view set.value) has.few,
    (set.value, AreTexts-texts views set.value has.each, of_values-value set has.built),
  )
