-- ===== src/Hotspot/Args.antt =====
-- `ExtractArgs` of core/hotspot/traffic_shaping.go: the value of a call that a rule is about.
-- A map is an association list. K is what stands for a value; what package strconv and the JSON packages
-- make of a text or of a struct are parameters.
use gmiter.Prelude.{
  ℕ, zero, suc, ◌-◌, ◌<◌, ◌≤◌, ◌≡◌, refl, Bool, true, false, not, ◌||◌, Option, none, some, List,
  [], ◌∷◌, length, get_elem?, ◌==◌, if◌then◌else◌, add64, slt64, half64, mod64, arith,
}
use gmiter.Prelude.Strings.{Bytes, same_string, is_empty}
use gmiter.Hotspot.Rule.{parameter_type_header, parameter_type_metadata}
use gmiter.Hotspot.Controller.{Controller}

-- An argument: its value, its text if it is a string, and whether it is a struct.
pub record Arg (K : Type 0) : Type 0 where
  pub value : K
  pub text : Option Bytes
  pub is_struct : Bool

-- The parts of `seaInput` that a rule looks at; an attachment may be nil.
pub record SeaInput (K : Type 0) : Type 0 where
  pub batch_count : ℕ
  pub attachments : Option (List (Bytes × Option K))
  pub args : List (Arg K)
  pub headers : List (Bytes × List Bytes)
  pub meta_data : List (Bytes × Bytes)

abbrev pub at_key {ℓ} : {A : Type ℓ} → Bytes → List (Bytes × A) → Option A
at_key key [] = none
at_key key ((k, v) ∷ m) = if same_string k key then some v else at_key key m

-- The names of the kinds.
pub record Kinds : Type 0 where
  pub kind_string : Bytes
  pub kind_parsed : List Bytes

-- "string", and the kinds that a text is parsed as: int, int32, int64, float32, float64, bool.
abbrev pub kinds : Kinds
kinds = record {
  kind_string = 115 ∷ 116 ∷ 114 ∷ 105 ∷ 110 ∷ 103 ∷ [];
  kind_parsed =
      (105 ∷ 110 ∷ 116 ∷ [])
      ∷ (105 ∷ 110 ∷ 116 ∷ 51 ∷ 50 ∷ [])
      ∷ (105 ∷ 110 ∷ 116 ∷ 54 ∷ 52 ∷ [])
      ∷ (102 ∷ 108 ∷ 111 ∷ 97 ∷ 116 ∷ 51 ∷ 50 ∷ [])
      ∷ (102 ∷ 108 ∷ 111 ∷ 97 ∷ 116 ∷ 54 ∷ 52 ∷ [])
      ∷ (98 ∷ 111 ∷ 111 ∷ 108 ∷ [])
      ∷ [];
}

abbrev pub is_among : Bytes → List Bytes → Bool
is_among s [] = false
is_among s (t ∷ ts) = same_string s t || is_among s ts

-- `strings.SplitN(s, "=", 2)` where it gives two texts.
unfoldable pub cut : Bytes → Option (Bytes × Bytes)
cut [] = none
cut (b ∷ s) =
    let rest = cut s in
    if b == 61 then some ([], s) else elim rest [ none ↦ none | some (k, v) ↦ some (b ∷ k, v) ]

-- The argument at the index of the rule, from the back where it is negative.
unfoldable pub extract_by_index : {K : Type 0} → ℕ → List (Arg K) → Option K
extract_by_index param_index args =
    let idx = (if slt64 param_index 0 then add64 (length args) param_index else param_index) in
    if slt64 idx 0
    then none
    else if not (slt64 idx (length args))
    then none
    else elim (get_elem? args idx) [ none ↦ none | some arg ↦ some arg.value ]

module _ {K : Type 0} (of_string : Bytes → K) (parse : Bytes → Bytes → Option K)
    (json_get : K → Bytes → Option K) where
  unfoldable pub trans_kind : Bytes → Bytes → Option K
  trans_kind val kind =
      if same_string kind kinds.kind_string
      then some (of_string val)
      else if is_among kind kinds.kind_parsed
      then parse kind val
      else none

  unfoldable pub extract_attachment_args : {F : Type 0} → Controller K F → SeaInput K → Option K
  extract_attachment_args c input = elim input.attachments [
    | none ↦ none
    | some attachments ↦
        if is_empty c.param_key
        then none
        else elim (at_key c.param_key attachments) [ none ↦ none | some arg ↦ arg ]
  ]

  unfoldable pub extract_header : {F : Type 0} → Controller K F → SeaInput K → Option K
  extract_header c input =
      if not (c.param_source == parameter_type_header)
      then none
      else elim (at_key c.param_key input.headers) [
        | none ↦ none
        | some vals ↦ elim vals [
          | [] ↦ none
          | val ∷ _ ↦ if is_empty val then none else trans_kind val c.param_kind
        ]
      ]

  unfoldable pub extract_metadata : {F : Type 0} → Controller K F → SeaInput K → Option K
  extract_metadata c input =
      if not (c.param_source == parameter_type_metadata)
      then none
      else elim (at_key c.param_key input.meta_data) [
        | none ↦ none
        | some val ↦ if is_empty val then none else trans_kind val c.param_kind
      ]

  -- The loop over the arguments of the form key=value.
  unfoldable pub extract_pair : Bytes → List (Arg K) → Option K
  extract_pair key [] = none
  extract_pair key (arg ∷ args) =
      let rest = extract_pair key args in
      elim arg.text [
        | none ↦ rest
        | some s ↦ elim (cut s) [
          | none ↦ rest
          | some (k, v) ↦ if same_string key k then some (of_string v) else rest
        ]
      ]

  -- The outer `none` is the panic of reading the first of no arguments.
  unfoldable pub extract_args : {F : Type 0} → Controller K F → SeaInput K → Option (Option K)
  extract_args c input = elim input.args [
    | [] ↦ none
    | first ∷ args ↦
        if first.is_struct
        then some (json_get first.value c.param_key)
        else some (elim (extract_pair c.param_key (first ∷ args)) [
          | some value ↦ some value
          | none ↦ extract_by_index c.param_index (first ∷ args)
        ])
  ]

  abbrev or_else : Option K → Option (Option K) → Option (Option K)
  or_else (some v) other = some (some v)
  or_else none other = other

  unfoldable pub extract : {F : Type 0} → Controller K F → SeaInput K → Option (Option K)
  extract c input =
      or_else (extract_attachment_args c input) (
        or_else (extract_header c input)
          (or_else (extract_metadata c input) (extract_args c input)))

-- The value that an index stands for among the arguments.
abbrev pub value_at : {K : Type 0} → List (Arg K) → ℕ → Option K
value_at args i = elim (get_elem? args i) [ none ↦ none | some arg ↦ some arg.value ]

beyond : {K : Type 0} (args : List (Arg K)) (i : ℕ) → length args ≤ i → value_at args i ≡ none
beyond [] i h = refl
beyond (x ∷ args) zero h = absurd (omega arith)
beyond (x ∷ args) (suc i) h = beyond args i (omega arith)

-- The index of a rule counts from the front, or from the back where it is negative; outside of the
-- arguments it gives nothing.
extract_by_index_lem :
    {K : Type 0} (args : List (Arg K)) (i : ℕ)
    → length args < half64
    → (i < half64 → extract_by_index i args ≡ value_at args i)
      × (0 < i
          → i ≤ length args
          → extract_by_index (mod64 - i) args ≡ value_at args (length args - i))
      × (length args < i → i ≤ half64 → extract_by_index (mod64 - i) args ≡ none)
unfolding extract_by_index
extract_by_index_lem args i h = (
  λ front. ground (arith, beyond args i),
  λ some_index back.
      let negative : slt64 (mod64 - i) 0 ≡ true = ground arith in
      let idx : add64 (length args) (mod64 - i) ≡ length args - i = omega arith in
      rw (negative, idx) (ground arith),
  λ outside back. ground arith,
)
