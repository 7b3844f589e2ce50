-- ===== src/Exec/Keeps.antt =====
-- Invariants of programs, one rule for each way to build a program.
use shelter_server_hpc.Prelude.{◌≡◌, refl, Bool, true, false, Option, none, some, if◌then◌else◌}
use shelter_server_hpc.Exec.{
  Result, ok, throws, exits, crashes, Exec, and_then, pure, ends, nothing, modify, caught, try_or,
  catching, when, ◌>>=◌, ◌>>◌,
}

-- `m` keeps `P`, however it ends.
pub record Keeps {S A : Type 0} (P : S → Type 0) (m : Exec S A) : Type 0 where
  pub at : (s : S) → P s → P (m s).1

module _ {S : Type 0} {P : S → Type 0} where
  pub Keeps-nothing : Keeps P nothing
  unfolding nothing
  Keeps-nothing = record { at = λ s h. h }

  pub Keeps-modify : (f : S → S) → ((s : S) → P s → P (f s)) → Keeps P (modify f)
  unfolding modify
  Keeps-modify f k = record { at = k }

caught-keeps : {S A : Type 0} (P : S → Type 0) (a : A) (r : Result A × S) → P r.1 → P (caught a r).1
caught-keeps P a (ok b, s) h = h
caught-keeps P a (throws, s) h = h
caught-keeps P a (exits, s) h = h
caught-keeps P a (crashes, s) h = h

module _ {S A : Type 0} {P : S → Type 0} where
  pub Keeps-pure : (a : A) → Keeps P (pure a)
  unfolding pure
  Keeps-pure a = record { at = λ s h. h }

  pub Keeps-ends : (r : Result A) → Keeps P (ends r)
  unfolding ends
  Keeps-ends r = record { at = λ s h. h }

  pub Keeps-if : (b : Bool) {m n : Exec S A} → Keeps P m → Keeps P n → Keeps P (if b then m else n)
  Keeps-if true km kn = km
  Keeps-if false km kn = kn

  pub Keeps-try_or : (a : A) {m : Exec S A} → Keeps P m → Keeps P (try_or a m)
  unfolding try_or
  Keeps-try_or a {m} k = record { at = λ s h. caught-keeps P a (m s) (k.at s h) }

module _ {S A B : Type 0} {P : S → Type 0} where
  and_then-keeps :
      (f : A → Exec S B) (r : Result A × S) → ((a : A) → Keeps P (f a)) → P r.1 → P (and_then f r).1
  and_then-keeps f (ok a, s) k h = (k a).at s h
  and_then-keeps f (throws, s) k h = h
  and_then-keeps f (exits, s) k h = h
  and_then-keeps f (crashes, s) k h = h

  pub Keeps-bind :
      {m : Exec S A} (f : A → Exec S B) → Keeps P m → ((a : A) → Keeps P (f a)) → Keeps P (m >>= f)
  unfolding ◌>>=◌
  Keeps-bind {m} f km kf = record { at = λ s h. and_then-keeps f (m s) kf (km.at s h) }

  pub Keeps-then : {m : Exec S A} {n : Exec S B} → Keeps P m → Keeps P n → Keeps P (m >> n)
  unfolding ◌>>◌
  Keeps-then {m} {n} km kn = record {
    at = λ s h. and_then-keeps (λ _. n) (m s) (λ _. kn) (km.at s h);
  }

module _ {S : Type 0} {P : S → Type 0} where
  pub Keeps-when : (b : Bool) {m : Exec S (Unit {0})} → Keeps P m → Keeps P (when b m)
  unfolding when
  Keeps-when true k = record { at = λ s h. k.at s h }
  Keeps-when false k = record { at = λ s h. h }

  pub Keeps-catching : {m : Exec S (Unit {0})} → Keeps P m → Keeps P (catching m)
  Keeps-catching k = Keeps-try_or tt k

module _ {S A B : Type 0} {P : S → Type 0} where
  pub Keeps-Option :
      (o : Option B) {n : Exec S A} {f : B → Exec S A}
      → Keeps P n
      → ((b : B) → o ≡ some b → Keeps P (f b))
      → Keeps P (elim o [ none ↦ n | some b ↦ f b ])
  Keeps-Option none kn kf = kn
  Keeps-Option (some b) kn kf = kf b refl

  -- The rest may use that the value is there.
  pub Keeps-bind_ends :
      (r : Result A) (f : A → Exec S B)
      → ((a : A) → r ≡ ok a → Keeps P (f a))
      → Keeps P (ends r >>= f)
  unfolding ◌>>=◌ ends
  Keeps-bind_ends (ok a) f k = record { at = λ s h. (k a refl).at s h }
  Keeps-bind_ends throws f k = record { at = λ s h. h }
  Keeps-bind_ends exits f k = record { at = λ s h. h }
  Keeps-bind_ends crashes f k = record { at = λ s h. h }

pub ruleset keeps_rules = (
  Keeps-nothing, Keeps-pure, Keeps-ends, Keeps-if, Keeps-try_or, Keeps-bind, Keeps-then, Keeps-when,
  Keeps-catching,
)
