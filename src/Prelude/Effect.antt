-- ===== src/Prelude/Effect.antt =====
-- Async functions that return `io::Result`, as steps on a state: `?` ends the function, `caught` is a
-- `match` on the result of a call. The state is kept on an error too.
use mathlib.Core.Path.{◌≡◌, ap, refl}
use async_rt.Prelude.Io.{Result, ok, err, ErrorKind}

pub record Answer (S A : Type 0) : Type 0 where
  pub result : Result A
  pub state : S

abbrev pub Effect : Type 0 → Type 0 → Type 0
Effect S A = S → Answer S A

abbrev pub answer : {S A : Type 0} → Result A → Effect S A
answer r s = record { result = r; state = s }

abbrev pub give : {S A : Type 0} → A → Effect S A
give a = answer (ok a)

abbrev pub raise : {S A : Type 0} → ErrorKind → Effect S A
raise e = answer (err e)

abbrev pub caught : {S A B : Type 0} → Effect S A → (Result A → Effect S B) → Effect S B
caught m k s = k (m s).result (m s).state

abbrev pub proceed : {S A B : Type 0} → (A → Effect S B) → Result A → Effect S B
proceed f (ok a) = f a
proceed f (err e) = raise e

infixl 5 ◌>>=◌ ◌>>◌
abbrev pub ◌>>=◌ : {S A B : Type 0} → Effect S A → (A → Effect S B) → Effect S B
m >>= f = caught m (proceed f)

abbrev pub ◌>>◌ : {S A B : Type 0} → Effect S A → Effect S B → Effect S B
m >> k = m >>= λ _. k

-- A chain that succeeds: its first part does, and the rest runs from there.
pub bind-ok :
    {S A B : Type 0} (m : Effect S A) (f : A → Effect S B) (s : S) (b : B)
    → ((m >>= f) s).result ≡ ok b
    → (a : A) × ((m s).result ≡ ok a) × ((m >>= f) s ≡ f a (m s).state)
bind-ok {S} {A} {B} m f s b h = go (m s).result refl h
  where
    go :
        (r : Result A)
        → (m s).result ≡ r
        → (proceed f r (m s).state).result ≡ ok b
        → (a : A) × ((m s).result ≡ ok a) × ((m >>= f) s ≡ f a (m s).state)
    go (ok a) e h = (a, e, ap (λ r. proceed f r (m s).state) e)
    go (err k) e h = cc

pub ok-injective : {A : Type 0} (a b : A) → Result.ok a ≡ ok b → a ≡ b
ok-injective a b e = cc
