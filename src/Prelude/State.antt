-- ===== src/Prelude/State.antt =====
-- The state monad that the stateful components are written in.
abbrev pub St : Type 0 → Type 0 → Type 0
St S A = S → A × S

infixl 5 ◌>>=◌ ◌>>◌
abbrev pub ◌>>=◌ : {S A B : Type 0} → St S A → (A → St S B) → St S B
◌>>=◌ m f s = let r = m s in f r.0 r.1

abbrev pub ◌>>◌ : {S B : Type 0} → St S (Unit {0}) → St S B → St S B
◌>>◌ m k s = let r = m s in k r.1

abbrev pub pure : {S A : Type 0} → A → St S A
pure a s = (a, s)
