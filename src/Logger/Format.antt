-- ===== src/Logger/Format.antt =====
-- How `log` of common/logging.h pairs placeholders with arguments.
use low_latency_trading_engi.Base.{
  ℕ, ◌≡◌, refl, ap, sym, ◌∙◌, inl, inr, List, [], ◌∷◌, ◌++◌, Fault, Result, ok, err, ◌==◌,
  if◌then◌else◌, bind_result, Bool-cases, map,
}
use low_latency_trading_engi.LfQueue
use low_latency_trading_engi.LfQueue.{write_all}
use low_latency_trading_engi.Logger.{
  LogElement, Argument, value, text, Queue, push_value, push_chars, push_argument, log,
}

-- A format string read on its own: plain characters, and places for arguments.
pub data Piece : Type 0 where
  plain : ℕ → Piece
  place : Piece

abbrev pub pieces : List ℕ → List Piece
pieces [] = []
pieces (c ∷ []) = (if c == b'%' then place else plain c) ∷ []
pieces (c ∷ d ∷ s) =
    let tail = pieces (d ∷ s) in
    let rest = pieces s in
    if c == b'%' then if d == b'%' then plain d ∷ rest else place ∷ tail else plain c ∷ tail

-- What an argument is written as.
abbrev pub elements : Argument → List LogElement
elements (value x) = x ∷ []
elements (text cs) = map LogElement.char cs

-- The elements of a whole line, if there are as many arguments as places.
abbrev pub line : List Piece → List Argument → Result (List LogElement)
line [] [] = ok []
line [] (a ∷ rest) = err Fault.fatal
line (plain c ∷ ps) rest = bind_result (line ps rest) (λ es. ok (LogElement.char c ∷ es))
line (place ∷ ps) [] = err Fault.fatal
line (place ∷ ps) (a ∷ rest) = bind_result (line ps rest) (λ es. ok (elements a ++ es))

push_chars-write_all :
    (cs : List ℕ) (q : Queue) → push_chars cs q ≡ write_all q (map LogElement.char cs)
unfolding push_chars push_value write_all
push_chars-write_all [] q = refl
push_chars-write_all (c ∷ cs) q = push_chars-write_all cs (push_value (LogElement.char c) q)

push_argument-write_all : (a : Argument) (q : Queue) → push_argument a q ≡ write_all q (elements a)
unfolding push_argument push_value write_all
push_argument-write_all (value x) q = refl
push_argument-write_all (text cs) q = push_chars-write_all cs q

write_all-append :
    (q : Queue) (xs ys : List LogElement) → write_all q (xs ++ ys) ≡ write_all (write_all q xs) ys
unfolding write_all
write_all-append q [] ys = refl
write_all-append q (x ∷ xs) ys = write_all-append (LfQueue.write q x) xs ys

bind-ok :
    {A B C : Type 0} (r : Result A) (h : A → B) (k : B → Result C)
    → bind_result (bind_result r (λ a. ok (h a))) k ≡ bind_result r (λ a. k (h a))
bind-ok (ok a) h k = refl
bind-ok (err e) h k = refl

-- A character in front of a line, and an argument.
char_first :
    (c : ℕ) (r : Result (List LogElement)) (q : Queue)
    → bind_result r (λ es. ok (write_all (push_value (LogElement.char c) q) es))
      ≡ bind_result (bind_result r (λ es. ok (LogElement.char c ∷ es))) (λ es. ok (write_all q es))
unfolding push_value write_all
char_first c (ok es) q = refl
char_first c (err e) q = refl

argument_first :
    (a : Argument) (r : Result (List LogElement)) (q : Queue)
    → bind_result r (λ es. ok (write_all (push_argument a q) es))
      ≡ bind_result (bind_result r (λ es. ok (elements a ++ es))) (λ es. ok (write_all q es))
argument_first a (ok es) q = ap ok (
    ap (λ t. write_all t es) (push_argument-write_all a q)
    ∙ sym (write_all-append q (elements a) es))
argument_first a (err e) q = refl

-- `log` sends exactly the elements of its line, in order; with more places than arguments, or fewer,
-- it ends the process.
pub log-line :
    (s : List ℕ) (args : List Argument) (q : Queue)
    → log s args q ≡ bind_result (line (pieces s) args) (λ es. ok (write_all q es))
unfolding log write_all
log-line [] [] q = refl
log-line [] (a ∷ rest) q = refl
log-line (c ∷ []) [] q = elim (Bool-cases (c == b'%')) [
  | inl e ↦ rw e
  | inr e ↦ rw e (char_first c (ok []) q)
]
log-line (c ∷ []) (a ∷ []) q = elim (Bool-cases (c == b'%')) [
  | inl e ↦ rw e (argument_first a (ok []) q)
  | inr e ↦ rw e
]
log-line (c ∷ []) (a ∷ b ∷ rest) q = elim (Bool-cases (c == b'%')) [ inl e ↦ rw e | inr e ↦ rw e ]
log-line (c ∷ d ∷ s) [] q =
    let tail = log-line (d ∷ s) [] (push_value (LogElement.char c) q) in
    let rest = log-line s [] (push_value (LogElement.char d) q) in
    elim (Bool-cases (c == b'%')) [
      | inr e ↦ rw e (tail ∙ char_first c (line (pieces (d ∷ s)) []) q)
      | inl e ↦ elim (Bool-cases (d == b'%')) [
        | inl f ↦ rw (e, f) (rest ∙ char_first d (line (pieces s) []) q)
        | inr f ↦ rw (e, f)
      ]
    ]
log-line (c ∷ d ∷ s) (a ∷ more) q =
    let tail = log-line (d ∷ s) (a ∷ more) (push_value (LogElement.char c) q) in
    let rest = log-line s (a ∷ more) (push_value (LogElement.char d) q) in
    let next = log-line (d ∷ s) more (push_argument a q) in
    elim (Bool-cases (c == b'%')) [
      | inr e ↦ rw e (tail ∙ char_first c (line (pieces (d ∷ s)) (a ∷ more)) q)
      | inl e ↦ elim (Bool-cases (d == b'%')) [
        | inl f ↦ rw (e, f) (rest ∙ char_first d (line (pieces s) (a ∷ more)) q)
        | inr f ↦ rw (e, f) (next ∙ argument_first a (line (pieces (d ∷ s)) more) q)
      ]
    ]
