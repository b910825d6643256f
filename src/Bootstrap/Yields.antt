-- ===== src/Bootstrap/Yields.antt =====
-- Actions that give an answer from every state, and what the answer is.
use bigdataexpress_c.Base.{◌≡◌, refl, List, ◌∷◌, Bool, true, false, if◌then◌else◌, arith}
use bigdataexpress_c.Store.{Database}
use bigdataexpress_c.Bootstrap.{
  Ask, BootEnv, Boot, Answer, gives, fails, crashes, B, pure, ◌>>=◌, on_answer, write_store, get,
  ask, draw,
}

abbrev pub Given : {A : Type 0} → (A → Type 0) → Answer A → Type 0
Given P (gives a) = P a
Given P _ = ⊥

pub record Yields {A : Type 0} (P : A → Type 0) (m : B A) : Type 0 where
  pub answer : (s : Boot) → Given P (m s).0

on_answer-Yields :
    {A C : Type 0} (P : A → Type 0) (Q : C → Type 0) (f : A → B C) (a : Answer A) (s : Boot)
    → Given P a
    → ((x : A) → P x → Yields Q (f x))
    → Given Q (on_answer a s f).0
on_answer-Yields P Q f (gives x) s h k = (k x h).answer s
on_answer-Yields P Q f (fails e) s h k = absurd h
on_answer-Yields P Q f crashes s h k = absurd h

pub bind-Yields :
    {A C : Type 0} {P : A → Type 0} {Q : C → Type 0} {m : B A} {f : A → B C}
    → Yields P m
    → ((x : A) → P x → Yields Q (f x))
    → Yields Q (m >>= f)
unfolding ◌>>=◌
bind-Yields {P} {Q} {m} {f} h k = record {
  answer = λ s. on_answer-Yields P Q f (m s).0 (m s).1 (h.answer s) k;
}

pub pure-Yields : {A : Type 0} {P : A → Type 0} (a : A) → P a → Yields P (pure a)
unfolding pure
pure-Yields a h = record { answer = λ s. h }

-- Nothing is known of the answer.
abbrev pub Any : {A : Type 0} → A → Type 0
Any a = Unit

pub get-Yields : Yields Any get
unfolding get
get-Yields = record { answer = λ s. tt }

pub ask-Yields :
    {R : Type 0} {P : R → Type 0} (reply : List Ask → R) (a : Ask)
    → ((asked : List Ask) → P (reply asked))
    → Yields P (ask reply a)
unfolding ask
ask-Yields reply a h = record { answer = λ s. h (a ∷ s.asked) }

pub draw-Yields : (env : BootEnv) → Yields Any (draw env)
unfolding draw
draw-Yields env = record { answer = λ s. tt }

pub write_store-Yields : (f : Database → Database) → Yields Any (write_store f)
unfolding write_store
write_store-Yields f = record { answer = λ s. tt }

-- The branch of a test that succeeds, or that fails.
pub true-Yields :
    {A : Type 0} {P : A → Type 0} {m : B A} (k : B A) (b : Bool)
    → b ≡ true
    → Yields P m
    → Yields P (if b then m else k)
true-Yields k true e h = h
true-Yields k false e h = absurd (ground arith)

pub false-Yields :
    {A : Type 0} {P : A → Type 0} {k : B A} (m : B A) (b : Bool)
    → b ≡ false
    → Yields P k
    → Yields P (if b then m else k)
false-Yields m false e h = h
false-Yields m true e h = absurd (ground arith)

answer_map :
    {A : Type 0} (P Q : A → Type 0) (a : Answer A) → Given P a → ((x : A) → P x → Q x) → Given Q a
answer_map P Q (gives x) h k = k x h
answer_map P Q (fails e) h k = absurd h
answer_map P Q crashes h k = absurd h

pub weaker :
    {A : Type 0} {P Q : A → Type 0} {m : B A} → Yields P m → ((x : A) → P x → Q x) → Yields Q m
weaker {P} {Q} {m} h k = record { answer = λ s. answer_map P Q (m s).0 (h.answer s) k }

pub answer_some :
    {A : Type 0} (P : A → Type 0) (a : Answer A) → Given P a → (x : A) × (a ≡ gives x) × P x
answer_some P (gives x) h = (x, refl, h)
answer_some P (fails e) h = absurd h
answer_some P crashes h = absurd h
