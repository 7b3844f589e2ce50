-- ===== src/Exec/Steps.antt =====
-- How a sequence of two programs runs.
use shelter_server_hpc.Prelude.{◌≡◌, refl, sym, ap, ◌∙◌}
use shelter_server_hpc.Exec.{Result, ok, throws, exits, crashes, Exec, and_then, ends, ◌>>=◌, ◌>>◌}
use shelter_server_hpc.Exec.Keeps.{Keeps}

module _ {S A B : Type 0} where
  pub bind_ok :
      (m : Exec S A) (f : A → Exec S B) (s s' : S) (a : A) → m s ≡ (ok a, s') → (m >>= f) s ≡ f a s'
  unfolding ◌>>=◌
  bind_ok m f s s' a e = rw e refl

  pub then_ok :
      (m : Exec S A) (n : Exec S B) (s s' : S) (a : A) → m s ≡ (ok a, s') → (m >> n) s ≡ n s'
  unfolding ◌>>◌
  then_ok m n s s' a e = rw e refl

  -- A value that a program gives, as far as the result goes.
  pub and_then_ok :
      (f : A → Exec S B) (a : A) (p : Result A × S) → p.0 ≡ ok a → and_then f p ≡ f a p.1
  and_then_ok f a (r, s) e = rw e refl

  and_then_returns :
      (f : A → Exec S B) (p : Result A × S) (b : B)
      → (and_then f p).0 ≡ ok b
      → (a : A) × (p.0 ≡ ok a) × (and_then f p ≡ f a p.1)
  and_then_returns f (ok a, s) b e = (a, refl, refl)
  and_then_returns f (throws, s) b e = cc
  and_then_returns f (exits, s) b e = cc
  and_then_returns f (crashes, s) b e = cc

  -- If a sequence returns, its first part has returned.
  pub then_returns :
      (m : Exec S A) (n : Exec S B) (s : S) (b : B)
      → ((m >> n) s).0 ≡ ok b
      → (a : A) × ((m s).0 ≡ ok a) × ((m >> n) s ≡ n (m s).1)
  unfolding ◌>>◌
  then_returns m n s b e = and_then_returns (λ _. n) (m s) b e

-- If `m` returns, it leaves a state of `Q`.
pub record Leads {S A : Type 0} (Q : S → Type 0) (m : Exec S A) : Type 0 where
  pub at : (s : S) (a : A) → (m s).0 ≡ ok a → Q (m s).1

module _ {S A B : Type 0} {Q : S → Type 0} where
  pub Leads-then : (m : Exec S A) {n : Exec S B} → Leads Q n → Leads Q (m >> n)
  Leads-then m {n} l = record {
    at = λ s b e.
        let (a, r, p) = then_returns m n s b e in
        rw p (l.at (m s).1 b (sym (ap (λ (x : Result B × S). x.0) p) ∙ e));
  }

  pub Leads-then_first : {m : Exec S A} {n : Exec S B} → Leads Q m → Keeps Q n → Leads Q (m >> n)
  Leads-then_first {m} {n} l k = record {
    at = λ s b e. let (a, r, p) = then_returns m n s b e in rw p (k.at (m s).1 (l.at s a r));
  }

pub Leads-crashes : {S A : Type 0} {Q : S → Type 0} → Leads {A = A} Q (ends crashes)
unfolding ends
Leads-crashes = record { at = λ s a e. cc }

module _ {S A B : Type 0} where
  -- An exception ends a sequence.
  pub then_throws :
      (m : Exec S A) (n : Exec S B) (s s' : S) → m s ≡ (throws, s') → (m >> n) s ≡ (throws, s')
  unfolding ◌>>◌
  then_throws m n s s' e = rw e refl
