-- ===== src/CaTool/Arguments.antt =====
-- The command line of the development CA.
use chat_hub.Prelude.{
  codes, ◌≡◌, ◌≢◌, ◌↔◌, inl, inr, refl, sym, ap, ◌∙◌, List, [], ◌∷◌, true, false, Bytes, some,
  arith, Bool-cases,
}
use chat_hub.CaTool.{Settings, ip_option, out_option, same_arg, read_args}

-- An option with its value.
pub data Setting : Type 0 where
  set_ip set_out : Bytes → Setting

-- The arguments that give these settings.
pub as_args : List Setting → List Bytes
as_args [] = []
as_args (set_ip v ∷ rest) = codes "--ip" ∷ v ∷ as_args rest
as_args (set_out v ∷ rest) = codes "--out" ∷ v ∷ as_args rest

-- The last value of an option counts.
pub apply_all : Settings → List Setting → Settings
apply_all s [] = s
apply_all s (set_ip v ∷ rest) = apply_all (record s { ip = v }) rest
apply_all s (set_out v ∷ rest) = apply_all (record s { out = v }) rest

pub same_arg_sound : (s t : Bytes) → same_arg s t ≡ true → s ≡ t
unfolding same_arg
same_arg_sound [] [] h = refl
same_arg_sound [] (d ∷ t) h = cc
same_arg_sound (c ∷ s) [] h = cc
same_arg_sound (c ∷ s) (d ∷ t) h =
    let head : c ≡ d = ground arith in
    let tail : s ≡ t = same_arg_sound s t (ground arith) in λ i. head i ∷ tail i

pub same_arg_refl : (s : Bytes) → same_arg s s ≡ true
unfolding same_arg
same_arg_refl [] = refl
same_arg_refl (c ∷ s) = ground (arith, same_arg_refl s)

pub same_arg_apart : (s t : Bytes) → same_arg s t ≡ false → s ≢ t
same_arg_apart s t h e = cc (ap (same_arg s) e, same_arg_refl s, h)

read_as_args :
    (s : Settings) (settings : List Setting)
    → read_args s (as_args settings) ≡ some (apply_all s settings)
unfolding read_args as_args apply_all same_arg
read_as_args s [] = refl
read_as_args s (set_ip v ∷ rest) = read_as_args _ rest
read_as_args s (set_out v ∷ rest) = read_as_args _ rest

read_args_inv :
    (s t : Settings) (args : List Bytes)
    → read_args s args ≡ some t
    → (settings : List Setting) × (args ≡ as_args settings) × (t ≡ apply_all s settings)
unfolding read_args as_args apply_all
read_args_inv s t [] h = ([], refl, cc)
read_args_inv s t (arg ∷ []) h = cc
read_args_inv s t (arg ∷ value ∷ rest) h = elim (Bool-cases (same_arg arg ip_option)) [
  | inl is_ip ↦
      let (settings, args, same) = read_args_inv (record s { ip = value }) t rest (ground arith) in
      (set_ip value ∷ settings, (λ i. same_arg_sound arg ip_option is_ip i ∷ value ∷ args i), same)
  | inr not_ip ↦ elim (Bool-cases (same_arg arg out_option)) [
    | inl is_out ↦
        let (settings, args, same) =
          read_args_inv (record s { out = value }) t rest (ground arith) in
        (
          set_out value ∷ settings,
          (λ i. same_arg_sound arg out_option is_out i ∷ value ∷ args i),
          same,
        )
    | inr not_out ↦ ground arith
  ]
]

-- The command line is read exactly if it is a list of `--ip` and `--out`, each with its value, and
-- of each option the last value counts.
pub read_args_iff :
    (s t : Settings) (args : List Bytes)
    → (read_args s args ≡ some t)
      ↔ ((settings : List Setting) × (args ≡ as_args settings) × (t ≡ apply_all s settings))
read_args_iff s t args =
    (read_args_inv s t args, λ h. ap (read_args s) h.1 ∙ read_as_args s h.0 ∙ sym (ap some h.2))
