-- ===== src/Client/Input.antt =====
-- `cin.getline(buffer, 1024)` and `string(buffer)` in `mainMenu` (src/client/main.cpp).
use cluster_chat_server_with.Prelude.{
  ℕ, zero, suc, ◌≡◌, refl, Bool, true, false, not, ◌&&◌, [], ◌∷◌, ◌++◌, Bytes, eqb, arith,
  if◌then◌else◌,
}

-- What is left on the standard input, and whether its error bits are set, which nothing clears.
pub record Input : Type 0 where
  pub typed : Bytes
  pub failed : Bool

-- The bytes up to the end of the line, which is taken out, or up to `room` bytes. The end of the
-- input and a line that is longer set the error bits.
unfoldable pub take_line : ℕ → Bytes → Bytes × Input
take_line room [] = ([], record { typed = []; failed = true })
take_line zero (c ∷ cs) =
    if eqb c 10
    then ([], record { typed = cs; failed = false })
    else ([], record { typed = c ∷ cs; failed = true })
take_line (suc room) (c ∷ cs) =
    let rest = take_line room cs in
    if eqb c 10 then ([], record { typed = cs; failed = false }) else (c ∷ rest.0, rest.1)

-- A buffer as a text: what stands before its first NUL.
unfoldable pub c_string : Bytes → Bytes
c_string [] = []
c_string (c ∷ cs) = let rest = c_string cs in if eqb c 0 then [] else c ∷ rest

-- A stream with an error bit leaves the buffer empty.
unfoldable pub read_line : Input → Bytes × Input
unfolding take_line c_string
read_line input =
    if input.failed
    then ([], input)
    else let (buffer, rest) = take_line 1023 input.typed in (c_string buffer, rest)

-- The input that begins with this line.
abbrev pub line_then : Bytes → Bytes → Input
line_then line later = record { typed = line ++ 10 ∷ later; failed = false }

-- A line that the buffer holds as it is: not too long, and without NUL and line end.
unfoldable pub fits : ℕ → Bytes → Bool
fits room [] = true
fits zero (c ∷ cs) = false
fits (suc room) (c ∷ cs) = not (eqb c 0) && not (eqb c 10) && fits room cs

take_line-fits :
    (room : ℕ) (line later : Bytes)
    → fits room line ≡ true
    → take_line room (line ++ 10 ∷ later) ≡ (line, record { typed = later; failed = false })
unfolding take_line fits
take_line-fits zero [] later h = refl
take_line-fits (suc room) [] later h = refl
take_line-fits zero (c ∷ cs) later h = absurd (cc)
take_line-fits (suc room) (c ∷ cs) later h = ground (arith, take_line-fits room cs later)

c_string-fits : (room : ℕ) (line : Bytes) → fits room line ≡ true → c_string line ≡ line
unfolding c_string fits
c_string-fits room [] h = refl
c_string-fits zero (c ∷ cs) h = absurd (cc)
c_string-fits (suc room) (c ∷ cs) h = ground (arith, c_string-fits room cs)

pub read_line-fits :
    (line later : Bytes)
    → fits 1023 line ≡ true
    → read_line (line_then line later) ≡ (line, record { typed = later; failed = false })
unfolding read_line
read_line-fits line later h = rw (take_line-fits 1023 line later h, c_string-fits 1023 line h) refl
