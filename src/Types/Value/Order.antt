-- ===== src/Types/Value/Order.antt =====
-- Strict total orders, and what the tests of lib/types/column_value.go for a greatest and a least
-- value make of one: these two elements move to the ends.
use samehada_db.Prelude.{ℕ, ◌≡◌, refl, Bool, true, false, not, ◌&&◌, ◌||◌, List, [], ◌∷◌, arith}
use samehada_db.Types.Value.{eq_bytes}
use samehada_db.Types.Value.Compare.{lt_bytes}

pub record IsStrictTotal {A : Type 0} (eqb lt : A → A → Bool) : Type 0 where
  pub eqb_sound : (x y : A) → eqb x y ≡ true → x ≡ y
  pub eqb_refl : (x : A) → eqb x x ≡ true
  pub irrefl : (x : A) → lt x x ≡ false
  pub trans : (x y z : A) → lt x y ≡ true → lt y z ≡ true → lt x z ≡ true
  pub total : (x y : A) → (lt x y || eqb x y || lt y x) ≡ true

-- `lt` with `mx` made the greatest element and `mn` the least
unfoldable pub less : {A : Type 0} → (A → A → Bool) → (A → A → Bool) → A → A → A → A → Bool
less eqb lt mx mn x y = not (eqb x mx) && (eqb y mx || not (eqb y mn) && (eqb x mn || lt x y))

module _ {A : Type 0} (eqb lt : A → A → Bool) (mx mn : A) (o : IsStrictTotal eqb lt)
    (apart : eqb mx mn ≡ false) where
  less_irrefl : (x : A) → less eqb lt mx mn x x ≡ false
  unfolding less
  less_irrefl x = ground (arith, o.irrefl x)

  less_trans :
      (x y z : A)
      → less eqb lt mx mn x y ≡ true
      → less eqb lt mx mn y z ≡ true
      → less eqb lt mx mn x z ≡ true
  unfolding less
  less_trans x y z h k =
      ground (arith, o.trans x y z, o.eqb_sound x mx, o.eqb_sound x mn, o.eqb_sound y mx, apart)

  less_total : (x y : A) → (less eqb lt mx mn x y || eqb x y || less eqb lt mx mn y x) ≡ true
  unfolding less
  less_total x y = ground (
    arith,
    o.total x y,
    o.eqb_sound x mx,
    o.eqb_sound y mx,
    o.eqb_sound x mn,
    o.eqb_sound y mn,
    o.eqb_refl mx,
    o.eqb_refl mn,
    apart,
  )

  pub less-IsStrictTotal : IsStrictTotal eqb (less eqb lt mx mn)
  less-IsStrictTotal = record {
    eqb_sound = o.eqb_sound;
    eqb_refl = o.eqb_refl;
    irrefl = less_irrefl;
    trans = less_trans;
    total = less_total;
  }

-- A strict total order excludes the other two cases.
module _ {A : Type 0} (eqb lt : A → A → Bool) (o : IsStrictTotal eqb lt) (x y : A) where
  pub not_both : lt x y ≡ true → lt y x ≡ false
  not_both h = ground (arith, o.trans x y x h, o.irrefl x)

  pub not-lt-eqb : eqb x y ≡ true → lt x y ≡ false
  not-lt-eqb h = ground (arith, o.eqb_sound x y h, o.irrefl x)

  pub leq_lem : (lt x y || eqb x y) ≡ not (lt y x)
  leq_lem = ground (arith, o.total x y, o.eqb_sound x y, o.irrefl x, o.irrefl y, o.trans x y x)

pub eq_bytes_sound : (s t : List ℕ) → eq_bytes s t ≡ true → s ≡ t
unfolding eq_bytes
eq_bytes_sound [] [] h = refl
eq_bytes_sound [] (y ∷ t) h = ground arith
eq_bytes_sound (x ∷ s) [] h = ground arith
eq_bytes_sound (x ∷ s) (y ∷ t) h = ground (arith, eq_bytes_sound s t)

pub eq_bytes_refl : (s : List ℕ) → eq_bytes s s ≡ true
unfolding eq_bytes
eq_bytes_refl [] = refl
eq_bytes_refl (x ∷ s) = ground (arith, eq_bytes_refl s)

lt_bytes_irrefl : (s : List ℕ) → lt_bytes s s ≡ false
unfolding lt_bytes
lt_bytes_irrefl [] = refl
lt_bytes_irrefl (x ∷ s) = ground (arith, lt_bytes_irrefl s)

lt_bytes_trans : (s t u : List ℕ) → lt_bytes s t ≡ true → lt_bytes t u ≡ true → lt_bytes s u ≡ true
unfolding lt_bytes
lt_bytes_trans [] [] u h k = k
lt_bytes_trans [] (y ∷ t) [] h k = k
lt_bytes_trans [] (y ∷ t) (z ∷ u) h k = refl
lt_bytes_trans (x ∷ s) [] u h k = ground arith
lt_bytes_trans (x ∷ s) (y ∷ t) [] h k = k
lt_bytes_trans (x ∷ s) (y ∷ t) (z ∷ u) h k = ground (arith, lt_bytes_trans s t u)

lt_bytes_total : (s t : List ℕ) → (lt_bytes s t || eq_bytes s t || lt_bytes t s) ≡ true
unfolding lt_bytes eq_bytes
lt_bytes_total [] [] = refl
lt_bytes_total [] (y ∷ t) = refl
lt_bytes_total (x ∷ s) [] = refl
lt_bytes_total (x ∷ s) (y ∷ t) = ground (arith, lt_bytes_total s t)

pub bytes-IsStrictTotal : IsStrictTotal eq_bytes lt_bytes
bytes-IsStrictTotal = record {
  eqb_sound = eq_bytes_sound;
  eqb_refl = eq_bytes_refl;
  irrefl = lt_bytes_irrefl;
  trans = lt_bytes_trans;
  total = lt_bytes_total;
}
