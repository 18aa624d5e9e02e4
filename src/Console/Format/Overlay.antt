-- ===== src/Console/Format/Overlay.antt =====
-- What a text leaves in the buffer, one byte after the other.
use mathlib.Core.Path.{fun_ext}
use venus_scheduler.Prelude.{
  ℕ, suc, ◌+◌, ◌-◌, ◌<◌, ◌≤◌, ◌≡◌, ◌⊎◌, refl, ap, ◌∙◌, arith, Bool, true, ◌&&◌, List, [], ◌∷◌, ◌++◌,
  ◌==◌, ltb, if◌then◌else◌, update, length, get_or, Bool-cases, inl, inr,
}

module _ (out : Bool) (n : ℕ) where
  abbrev pub written : ℕ → ℕ → (ℕ → ℕ) → ℕ → ℕ
  written at v bytes = if out && ltb at n then update bytes at v else bytes

  abbrev pub overlay : ℕ → List ℕ → (ℕ → ℕ) → ℕ → ℕ
  overlay p [] bytes = bytes
  overlay p (v ∷ vs) bytes = overlay (p + 1) vs (written p v bytes)

  pub overlay-append :
      (p : ℕ) (vs ws : List ℕ) (bytes : ℕ → ℕ)
      → overlay p (vs ++ ws) bytes ≡ overlay (p + length vs) ws (overlay p vs bytes)
  overlay-append p [] ws bytes = let at : p + 0 ≡ p = omega arith in rw at refl
  overlay-append p (v ∷ vs) ws bytes =
      let at : p + suc (length vs) ≡ p + 1 + length vs = omega arith in
      rw at (overlay-append (p + 1) vs ws (written p v bytes))

  pub overlay-outside :
      (vs : List ℕ) (p x : ℕ) (bytes : ℕ → ℕ)
      → (x < p) ⊎ (p + length vs ≤ x)
      → overlay p vs bytes x ≡ bytes x
  overlay-outside [] p x bytes o = refl
  overlay-outside (v ∷ vs) p x bytes o =
      overlay-outside vs (p + 1) x (written p v bytes) (ground arith) ∙ ground arith

  pub overlay-past :
      (vs : List ℕ) (p x : ℕ) (bytes : ℕ → ℕ) → n ≤ x → overlay p vs bytes x ≡ bytes x
  overlay-past [] p x bytes o = refl
  overlay-past (v ∷ vs) p x bytes o = overlay-past vs (p + 1) x (written p v bytes) o ∙ ground arith

  written_comm :
      (p q v w : ℕ) (bytes : ℕ → ℕ)
      → p < q
      → written p v (written q w bytes) ≡ written q w (written p v bytes)
  written_comm p q v w bytes lt = fun_ext λ x. ground arith

  -- A byte behind a text may be written before it.
  pub overlay-written :
      (vs : List ℕ) (p q w : ℕ) (bytes : ℕ → ℕ)
      → p + length vs ≤ q
      → overlay p vs (written q w bytes) ≡ written q w (overlay p vs bytes)
  overlay-written [] p q w bytes le = refl
  overlay-written (v ∷ vs) p q w bytes le =
      ap (overlay (p + 1) vs) (written_comm p q v w bytes (omega arith))
      ∙ overlay-written vs (p + 1) q w (written p v bytes) (omega arith)

pub overlay-inside :
    (n : ℕ) (vs : List ℕ) (p x : ℕ) (bytes : ℕ → ℕ)
    → p ≤ x
    → x < p + length vs
    → x < n
    → overlay true n p vs bytes x ≡ get_or vs (x - p) 0
overlay-inside n [] p x bytes ge lt small = absurd (omega arith)
overlay-inside n (v ∷ vs) p x bytes ge lt small = elim (Bool-cases (p == x)) [
  | inl e ↦
      let zero_ : x - p ≡ 0 = ground arith in
      rw zero_ (
        overlay-outside true n vs (p + 1) x (written true n p v bytes) (ground arith)
        ∙ ground arith)
  | inr e ↦
      let later : x - p ≡ suc (x - (p + 1)) = ground arith in
      rw later (
        overlay-inside n vs (p + 1) x (written true n p v bytes) (ground arith) (omega arith) small)
]
