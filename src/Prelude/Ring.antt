-- ===== src/Prelude/Ring.antt =====
-- What a circular array holds. A virtual index is reduced at each access, as the C code reduces it.
use mathlib.Core.List.{List, [], ◌∷◌, ◌++◌}
use mathlib.Core.Path.{◌≡◌, refl, ap, ap₂, sym, ◌∙◌}
use mathlib.Core.Logic.{◌≢◌}
use Prim.Native.Nat.{ℕ, zero, suc, ◌+◌, ◌-◌, ◌%◌, ◌≤◌, ◌<◌}
use native.Mathlib.Nat.{
  mod-add-mod, mod-eq_of_lt, mod-eq-sub-mod, mod-lt, mod-mod, add-zero, add-mod_right,
}
use native.Mathlib.Decide.{dec_lt}
use native.Mathlib.Omega.{arith}
use mathlib.Core.Option.{some}
use arwill.Prelude.Lists.{length, get_elem?, get_or, set, drop, get_or-set_self, get_or-set_ne}

-- Fewer than `c` steps round a ring of `c` cells do not come back.
add-mod-ne_lt : (h k c : ℕ) → h < c → 0 < k → k < c → (h + k) % c ≢ h
add-mod-ne_lt h k c hh pos hk = elim (dec_lt (h + k) c) [
  | yes p ↦ omega (arith, mod-eq_of_lt p)
  | no p ↦ omega (
    arith,
    mod-eq-sub-mod {n = h + k} {m = c} (omega arith),
    mod-eq_of_lt {n = h + k - c} {m = c} (omega arith),
  )
]

pub add-mod-ne : (h k c : ℕ) → 0 < k → k < c → (h + k) % c ≢ h % c
add-mod-ne h k c pos hk e = add-mod-ne_lt (h % c) k c (omega arith) pos hk (mod-add-mod h c k ∙ e)

module _ {ℓ} {A : Type ℓ} (d : A) where
  -- the `n` cells from virtual index `h` on, going round at `c`
  abbrev pub window : List A → ℕ → ℕ → ℕ → List A
  window buf c h zero = []
  window buf c h (suc n) = get_or buf (h % c) d ∷ window buf c (h + 1) n

  pub length-window : (buf : List A) (c h n : ℕ) → length (window buf c h n) ≡ n
  length-window buf c h zero = refl
  length-window buf c h (suc n) = ap suc (length-window buf c (h + 1) n)

  -- Indices that agree modulo the capacity name the same window.
  pub window-congr :
      (buf : List A) (c h h' n : ℕ) → h % c ≡ h' % c → window buf c h n ≡ window buf c h' n
  window-congr buf c h h' zero e = refl
  window-congr buf c h h' (suc n) e = ap₂ ◌∷◌ (ap (λ k. get_or buf k d) e) (
      window-congr buf c (h + 1) (h' + 1) n
        (sym (mod-add-mod h c 1) ∙ ap (λ k. (k + 1) % c) e ∙ mod-add-mod h' c 1))

  pub window-snoc :
      (buf : List A) (c h n : ℕ)
      → window buf c h (suc n) ≡ window buf c h n ++ get_or buf ((h + n) % c) d ∷ []
  window-snoc buf c h zero = ap (λ k. get_or buf (k % c) d ∷ []) (sym (add-zero h))
  window-snoc buf c h (suc n) =
      ap (λ t. get_or buf (h % c) d ∷ t)
        (window-snoc buf c (h + 1) n
          ∙ ap (λ k. window buf c (h + 1) n ++ get_or buf (k % c) d ∷ []) (omega arith))

  -- A write at most one round ahead, behind the window, does not change it.
  pub window-set_past :
      (buf : List A) (c h n m i : ℕ) (x : A)
      → i ≡ (h + m) % c
      → n ≤ m
      → m < c
      → window (set buf i x) c h n ≡ window buf c h n
  window-set_past buf c h zero m i x e le lt = refl
  window-set_past buf c h (suc n) m i x e le lt =
      ap₂ ◌∷◌ (get_or-set_ne buf i (h % c) x d (λ q. add-mod-ne h m c (omega arith) lt (sym e ∙ q)))
        (window-set_past buf c (h + 1) n (m - 1) i x (e ∙ ap (λ k. k % c) (omega arith))
          (omega arith) (omega arith))

  -- Writing at the tail appends.
  pub window-push :
      (buf : List A) (c h n i : ℕ) (x : A)
      → i ≡ (h + n) % c
      → n < c
      → c ≤ length buf
      → window (set buf i x) c h (suc n) ≡ window buf c h n ++ x ∷ []
  window-push buf c h n i x e lt fit =
      window-snoc (set buf i x) c h n
      ∙ ap₂ (λ s v. s ++ v ∷ []) (window-set_past buf c h n n i x e (omega arith) lt)
          (ap (λ k. get_or (set buf i x) k d) (sym e)
            ∙ get_or-set_self buf i x d (omega (arith, mod-lt (h + n) {m = c} (omega arith))))

  -- Reading at the head removes the first.
  pub window-pop :
      (buf : List A) (c h n : ℕ)
      → h < c
      → n ≢ 0
      → window buf c h n ≡ get_or buf h d ∷ window buf c ((h + 1) % c) (n - 1)
  window-pop buf c h zero lt ne = absurd (ne refl)
  window-pop buf c h (suc n) lt ne =
      ap₂ (λ k t. get_or buf k d ∷ t) (mod-eq_of_lt lt)
        (window-congr buf c (h + 1) ((h + 1) % c) n (sym (mod-mod (h + 1) c))
          ∙ ap (λ k. window buf c ((h + 1) % c) k) (omega arith))

  pub get_elem?-window :
      (buf : List A) (c h n i : ℕ)
      → i < n
      → get_elem? (window buf c h n) i ≡ some (get_or buf ((h + i) % c) d)
  get_elem?-window buf c h zero i lt = absurd (omega arith)
  get_elem?-window buf c h (suc n) zero lt =
      ap (λ k. some (get_or buf (k % c) d)) (sym (add-zero h))
  get_elem?-window buf c h (suc n) (suc i) lt =
      get_elem?-window buf c (h + 1) n i (omega arith)
      ∙ ap (λ k. some (get_or buf (k % c) d)) (omega arith)

  -- In a full ring, writing over the head and moving it drops the first and appends.
  pub window-overwrite :
      (buf : List A) (c h n : ℕ) (x : A)
      → h < c
      → n ≡ c
      → c ≤ length buf
      → window (set buf h x) c ((h + 1) % c) n ≡ drop 1 (window buf c h n) ++ x ∷ []
  window-overwrite buf c h zero x lt e fit = absurd (omega arith)
  window-overwrite buf c h (suc n) x lt e fit =
      window-push buf c ((h + 1) % c) n h x
        (sym (mod-add-mod (h + 1) c n ∙ ap (λ k. k % c) back ∙ turn)) (omega arith) fit
      ∙ ap (λ t. t ++ x ∷ []) (window-congr buf c ((h + 1) % c) (h + 1) n (mod-mod (h + 1) c))
    where
      back : h + 1 + n ≡ h + c
      back = omega arith

      turn : (h + c) % c ≡ h
      turn = add-mod_right h c ∙ mod-eq_of_lt lt
