-- ===== src/Json.antt =====
-- What the program uses of the JSON library (thirdparty/json.hpp), as an interface. The library is
-- a parameter of everything that reads or writes JSON.
use cluster_chat_server_with.Prelude.{
  ◌<◌, ◌≡◌, List, Option, none, some, Bool, true, false, Bytes, All, get_or, ℤ, Map, find,
  bytes_eq_inst,
}

-- The values that the program stores in an object.
pub data Field : Type 0 where
  int : ℤ → Field
  text : Bytes → Field
  texts : List Bytes → Field
  ints : List ℤ → Field

-- An object by its assignments `js[key] = value`.
abbrev pub Fields : Type 0
Fields = Map Bytes Field

-- `none` stands for a `json::exception`, which the callers catch around a whole message.
pub record Json : Type 1 where
  pub Value : Type 0
  pub make : Fields → Value
  pub parse : Bytes → Option Value
  pub dump : Value → Bytes
  pub contains : Bytes → Value → Bool
  -- what `<<` writes for `js[key]`
  pub member : Bytes → Value → Bytes
  pub get_int : Bytes → Value → Option ℤ
  pub get_text : Bytes → Value → Option Bytes
  pub get_texts : Bytes → Value → Option (List Bytes)
  pub get_ints : Bytes → Value → Option (List ℤ)

abbrev pub is_some {ℓ} : {A : Type ℓ} → Option A → Bool
is_some none = false
is_some (some a) = true

-- The documented behaviour on one object: its text parses to it, the text is that of an object and
-- has no NUL (the library escapes control characters), and a member is read as it was stored.
pub record IsFaithful (j : Json) (fs : Fields) : Type 0 where
  pub parsed : j.parse (j.dump (j.make fs)) ≡ some (j.make fs)
  pub opens : get_or (j.dump (j.make fs)) 0 0 ≡ b'{'
  pub no_nul : All (λ c. 0 < c) (j.dump (j.make fs))
  pub got_int : (k : Bytes) (i : ℤ) → find k fs ≡ some (int i) → j.get_int k (j.make fs) ≡ some i
  pub got_text :
      (k : Bytes) (t : Bytes) → find k fs ≡ some (text t) → j.get_text k (j.make fs) ≡ some t
  pub got_texts :
      (k : Bytes) (ts : List Bytes)
      → find k fs ≡ some (texts ts)
      → j.get_texts k (j.make fs) ≡ some ts
  pub contained : (k : Bytes) → j.contains k (j.make fs) ≡ is_some (find k fs)
  pub got_ints :
      (k : Bytes) (is : List ℤ) → find k fs ≡ some (ints is) → j.get_ints k (j.make fs) ≡ some is

-- A handler reads the members that it needs, and a missing one ends it.
abbrev pub both {ℓ} : {A B : Type ℓ} → Option A → Option B → Option (A × B)
both none b = none
both (some a) none = none
both (some a) (some b) = some (a, b)

abbrev pub reading {ℓ} : {A S : Type ℓ} → Option A → (A → S → S) → S → S
reading none f s = s
reading (some a) f s = f a s
