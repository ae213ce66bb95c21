-- ===== src/Config/Values.antt =====
-- What a configuration keeps when kernel/config.c changes one of its values.
use arwill.Prelude.{
  ℕ, ◌<◌, ◌≡◌, refl, subst, ap, inl, inr, true, not, ◌||◌, if◌then◌else◌, ◌==◌, ltb, leb,
  uint32_max, Bool-cases, Option, none, some, List, [], ◌∷◌, All, length, arith,
}
use mathlib.Core.Option.{some-injective}
use arwill.Text.Decimal.{parse_decimal}
use arwill.Config.Types.{
  Config, IsPort, IsKey, IsKeyByte, remote_key_capacity, true_text, false_text, info_text,
}
use arwill.Config.Parse.{
  token_equals, copy_key_bytes, copy_remote_key, set_version, set_enabled, set_port, set_key,
  set_log_level,
}

copy_key_bytes_lem :
    (source key : List ℕ) → copy_key_bytes source ≡ some key → (source ≡ key) × All IsKeyByte key
unfolding copy_key_bytes
copy_key_bytes_lem [] key h =
    subst (λ k. ([] ≡ k) × All IsKeyByte k) (some-injective [] key h) (refl, tt)
copy_key_bytes_lem (c ∷ rest) key h = go (copy_key_bytes rest) (copy_key_bytes_lem rest) h
  where
    go :
        (o : Option (List ℕ))
        → ((k : List ℕ) → o ≡ some k → (rest ≡ k) × All IsKeyByte k)
        → let r : Option (List ℕ) = elim o [
          | none ↦ none
          | some copied ↦ if ltb c 33 || (ltb 126 c || c == b'=') then none else some (c ∷ copied)
        ] in
          r ≡ some key → (c ∷ rest ≡ key) × All IsKeyByte key
    go none ih e = cc
    go (some k) ih e = elim (Bool-cases (ltb c 33 || (ltb 126 c || c == b'='))) [
      | inl bad ↦ cc (rw bad at e)
      | inr good ↦
          let (same, bytes) = ih k refl in
          subst (λ x. (c ∷ rest ≡ x) × All IsKeyByte x) (some-injective (c ∷ k) key (rw good at e))
            (ap (λ x. c ∷ x) same, (ground arith, bytes))
    ]

copy_remote_key_lem : (v k : List ℕ) → copy_remote_key v ≡ some k → IsKey k
unfolding copy_remote_key
copy_remote_key_lem v k h = elim (Bool-cases (leb remote_key_capacity (length v))) [
  | inl long ↦ cc (rw long at h)
  | inr short ↦
      let (same, bytes) = copy_key_bytes_lem v k (rw short at h) in
      (subst (λ k. length k < remote_key_capacity) same (ground arith), bytes)
]

module _ {F : Type 0} where
  -- A configuration that is well-formed because it is valid.
  abbrev pub IsSound : Config F → Type 0
  IsSound c = (c.version ≡ 1) × IsPort c.remote_port × IsKey c.remote_key × (c.valid ≡ true)

  -- A result that was made, if one was, is sound.
  abbrev pub Keeps : Option (Config F) → Type 0
  Keeps none = Unit
  Keeps (some c) = IsSound c

  abbrev pub KeepsMarked : Option (Config F × ℕ) → Type 0
  KeepsMarked none = Unit
  KeepsMarked (some (c, seen)) = IsSound c

  pub set_version-Keeps : (c : Config F) (v : List ℕ) → IsSound c → Keeps (set_version c v)
  unfolding set_version
  set_version-Keeps c v (_, port, key, off) = go (parse_decimal uint32_max v)
    where
      go :
          (o : Option ℕ)
          → let r : Option (Config F) = elim o [
            | none ↦ none
            | some version ↦
                if not (version == 1) then none else some (record c { version = version })
          ] in
            Keeps r
      go none = tt
      go (some version) = elim (Bool-cases (version == 1)) [
        | inr other ↦ rw other tt
        | inl one ↦ rw one (ground arith, port, key, off)
      ]

  pub set_enabled-Keeps : (c : Config F) (v : List ℕ) → IsSound c → Keeps (set_enabled c v)
  unfolding set_enabled
  set_enabled-Keeps c v (first, port, key, up) = elim (Bool-cases (token_equals v true_text)) [
    | inl on ↦ rw on (first, port, key, up)
    | inr not_on ↦ rw not_on (elim (Bool-cases (token_equals v false_text)) [
      | inl off ↦ rw off (first, port, key, up)
      | inr other ↦ rw other tt
    ])
  ]

  pub set_port-Keeps : (c : Config F) (v : List ℕ) → IsSound c → Keeps (set_port c v)
  unfolding set_port
  set_port-Keeps c v (first, _, key, off) = go (parse_decimal uint32_max v)
    where
      go :
          (o : Option ℕ)
          → let r : Option (Config F) = elim o [
            | none ↦ none
            | some port ↦
                if port == 0 || ltb 65535 port then none else some (record c { remote_port = port })
          ] in
            Keeps r
      go none = tt
      go (some port) = elim (Bool-cases (port == 0 || ltb 65535 port)) [
        | inl bad ↦ rw bad tt
        | inr good ↦ rw good (first, (ground arith, ground arith), key, off)
      ]

  pub set_key-Keeps : (c : Config F) (v : List ℕ) → IsSound c → Keeps (set_key c v)
  unfolding set_key
  set_key-Keeps c v (first, port, _, off) = go (copy_remote_key v) (copy_remote_key_lem v)
    where
      go :
          (o : Option (List ℕ))
          → ((k : List ℕ) → o ≡ some k → IsKey k)
          → let r : Option (Config F) = elim o [
            | none ↦ none
            | some key ↦ some (record c { remote_key = key })
          ] in
            Keeps r
      go none copied = tt
      go (some key) copied = (first, port, copied key refl, off)

  pub set_log_level-Keeps : (c : Config F) (v : List ℕ) → IsSound c → Keeps (set_log_level c v)
  unfolding set_log_level
  set_log_level-Keeps c v w = elim (Bool-cases (token_equals v info_text)) [
    | inl info ↦ rw info w
    | inr other ↦ rw other tt
  ]
