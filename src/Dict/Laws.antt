-- ===== src/Dict/Laws.antt =====
-- What a client may use of a `Dict`: reads after writes, and keys that stay distinct.
use dayu_water_agent.Prelude.{
  String, ◌≡◌, refl, true, eq_refl, none, some, [], ◌∷◌, arith, ◌==◌, eq_iff, if◌then◌else◌,
  Bool-cases, inl, inr,
}
use dayu_water_agent.Dict.{Dict, get, put, remove, contains}

module _ {ℓ} {V : Type ℓ} where
  pub get-put :
      (d : Dict V) (k j : String) (v : V) → get (put d k v) j ≡ (if k == j then some v else get d j)
  unfolding get put
  get-put [] k j v = refl
  get-put ((i, w) ∷ d) k j v = ground (arith, eq_iff k j, eq_iff i k, eq_iff i j, get-put d k j v)

  pub get-cons :
      (d : Dict V) (j k : String) (v : V)
      → get ((j, v) ∷ d) k ≡ (if j == k then some v else get d k)
  unfolding get
  get-cons d j k v = refl

  -- No key stands twice.
  abbrev pub Distinct : Dict V → Type ℓ
  Distinct [] = Unit {ℓ}
  Distinct ((j, v) ∷ d) = (get d j ≡ none) × Distinct d

  pub put-Distinct : (d : Dict V) (k : String) (v : V) → Distinct d → Distinct (put d k v)
  unfolding put
  put-Distinct [] k v h = (unfold get in refl, tt)
  put-Distinct ((i, w) ∷ d) k v h = elim (Bool-cases (i == k)) [
    | inl e ↦ rw e h
    | inr e ↦
        rw e (ground (arith, h.0, get-put d k i v, eq_iff i k, eq_iff k i), put-Distinct d k v h.1)
  ]

  pub get-remove :
      (d : Dict V) (k j : String)
      → Distinct d
      → get (remove d k) j ≡ (if k == j then none else get d j)
  unfolding get remove
  get-remove [] k j h = ground arith
  get-remove ((i, w) ∷ d) k j h =
      ground (arith, h.0, eq_iff k j, eq_iff i k, eq_iff i j, get-remove d k j h.1)

  pub remove-Distinct : (d : Dict V) (k : String) → Distinct d → Distinct (remove d k)
  unfolding remove
  remove-Distinct [] k h = h
  remove-Distinct ((i, w) ∷ d) k h = elim (Bool-cases (i == k)) [
    | inl e ↦ rw e h.1
    | inr e ↦ rw e (ground (arith, h.0, get-remove d k i h.1), remove-Distinct d k h.1)
  ]

  -- What holds of the value at `j` before a write holds after it, if it passes to the new value.
  pub get-put-keeps {κ} :
      (P : V → Type κ) (d : Dict V) (k j : String) (v x : V)
      → get d j ≡ some x
      → P x
      → (get d k ≡ some x → P v)
      → (y : V) × (get (put d k v) j ≡ some y) × P y
  get-put-keeps P d k j v x e p q = elim (Bool-cases (k == j)) [
    | inl same ↦ (v, ground (arith, get-put d k j v), q (rw ((eq_iff k j).0 same) e))
    | inr other ↦ (x, ground (arith, get-put d k j v), p)
  ]

  pub contains-put_self : (d : Dict V) (k : String) (v : V) → contains (put d k v) k ≡ true
  contains-put_self d k v = ground (arith, get-put d k k v, eq_refl k)
