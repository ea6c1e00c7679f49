-- ===== src/Hello/Sets.antt =====
-- `CapabilitySet` as a set of texts.
use chat_hub.Prelude.{◌≡◌, ap, List, [], ◌∷◌, true, ◌&&◌, ◌||◌, arith, Bytes, Bool-cases, inl, inr}
use chat_hub.Hello.{
  same_text, member, CapabilitySet, no_capabilities, contains, insert, insert_each, of_values,
  keep_common, intersect,
}
use chat_hub.Hello.Ascending.{IsAscending, emplace-IsAscending, member-emplace, ascending_unique}
use chat_hub.Hello.TextOrder.{same_text_sound}

-- How the sets that clients and servers have are built.
pub data Built : CapabilitySet → Type 0 where
  built_of : (values : List Bytes) → Built (of_values values)
  built_insert : {a : CapabilitySet} → Built a → (v : Bytes) → Built (insert a v)
  built_intersect : {a b : CapabilitySet} → Built a → Built b → Built (intersect a b)

insert_each-IsAscending :
    (a : CapabilitySet) (values : List Bytes)
    → IsAscending a.value
    → IsAscending (insert_each a values).value
unfolding insert_each insert
insert_each-IsAscending a [] s = s
insert_each-IsAscending a (v ∷ values) s =
    insert_each-IsAscending (insert a v) values (emplace-IsAscending v a.value s)

keep_common-IsAscending :
    (values : List Bytes) (b out : CapabilitySet)
    → IsAscending out.value
    → IsAscending (keep_common values b out).value
unfolding keep_common insert
keep_common-IsAscending [] b out s = s
keep_common-IsAscending (v ∷ values) b out s = elim (Bool-cases (member v b.value)) [
  | inl shared ↦
      simp shared
        (keep_common-IsAscending values b (insert out v) (emplace-IsAscending v out.value s))
  | inr other ↦ simp other (keep_common-IsAscending values b out s)
]

-- Every set that is built by the operations lists its texts in ascending order, each once.
pub Built-IsAscending : {a : CapabilitySet} → Built a → IsAscending a.value
unfolding of_values insert intersect
Built-IsAscending (built_of values) = insert_each-IsAscending no_capabilities values tt
Built-IsAscending (built_insert {a} s v) = emplace-IsAscending v a.value (Built-IsAscending s)
Built-IsAscending (built_intersect {a} {b} s t) =
    keep_common-IsAscending a.value b no_capabilities tt

-- `insert` adds the one text, and no other.
pub contains-insert :
    (a : CapabilitySet) (v w : Bytes) → contains (insert a v) w ≡ (same_text w v || contains a w)
unfolding contains insert
contains-insert a v w = member-emplace w v a.value

contains-insert_each :
    (a : CapabilitySet) (values : List Bytes) (w : Bytes)
    → contains (insert_each a values) w ≡ (contains a w || member w values)
unfolding insert_each member
contains-insert_each a [] w = ground arith
contains-insert_each a (v ∷ values) w =
    ground (arith, contains-insert_each (insert a v) values w, contains-insert a v w)

contains_same :
    (b : CapabilitySet) (w v : Bytes) → same_text w v ≡ true → contains b w ≡ member v b.value
unfolding contains
contains_same b w v h = ap (λ t. member t b.value) (same_text_sound w v h)

contains-keep_common :
    (values : List Bytes) (b out : CapabilitySet) (w : Bytes)
    → contains (keep_common values b out) w ≡ (contains out w || (member w values && contains b w))
unfolding keep_common member
contains-keep_common [] b out w = ground arith
contains-keep_common (v ∷ values) b out w =
    let with_v = contains-keep_common values b (insert out v) w in
    let without_v = contains-keep_common values b out w in
    let added = contains-insert out v w in
    elim (Bool-cases (member v b.value)) [
      | inl shared ↦ simp shared (elim (Bool-cases (same_text w v)) [
        | inl same ↦ ground (arith, with_v, added, contains_same b w v same)
        | inr different ↦ ground (arith, with_v, added)
      ])
      | inr other ↦ simp other (elim (Bool-cases (same_text w v)) [
        | inl same ↦ ground (arith, without_v, contains_same b w v same)
        | inr different ↦ ground (arith, without_v)
      ])
    ]

-- `intersect` holds exactly the texts that both sets hold.
pub contains-intersect :
    (a b : CapabilitySet) (w : Bytes) → contains (intersect a b) w ≡ (contains a w && contains b w)
unfolding intersect contains member
contains-intersect a b w = contains-keep_common a.value b no_capabilities w

-- A constructed set holds exactly the texts listed.
pub contains-of_values :
    (values : List Bytes) (w : Bytes) → contains (of_values values) w ≡ member w values
unfolding of_values contains member
contains-of_values values w = contains-insert_each no_capabilities values w

-- The values of `CapabilitySet` are sets: two of them, built by any of its operations, with the same
-- texts are the same value, so that neither the order nor the number of insertions shows.
pub Built-unique :
    (a b : CapabilitySet) → Built a → Built b → ((w : Bytes) → contains a w ≡ contains b w) → a ≡ b
unfolding contains
Built-unique a b s t same =
    ap (λ v. record { value = v })
      (ascending_unique a.value b.value (Built-IsAscending s) (Built-IsAscending t) same)
