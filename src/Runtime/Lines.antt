-- ===== src/Runtime/Lines.antt =====
-- That the reading of an answer does not depend on how it comes in chunks: a reference that sees
-- the bytes at once.
use mathlib.Core.List.{append_assoc, append-nil}
use mathlib.Core.Option.{some-injective, none-ne-some}
use mathlib.Core.Path.{subst}
use pytvt.Prelude.{
  ℕ, zero, suc, ◌+◌, ◌≤◌, ◌<◌, ◌≡◌, ◌≢◌, refl, sym, ap, ◌∙◌, false, Option, none, some, List, [],
  ◌∷◌, ◌++◌, ltb, ◌==◌, length, length-append, All, All-append, arith, Bool-cases, inl, inr,
  is_empty, if◌then◌else◌,
}
use pytvt.Prelude.Bytes.{Bytes, take, drop, take-append, length-drop, length-take-le}
use pytvt.Protocol.Socket.{Incoming, chunk, fails}
use pytvt.Protocol.Steps.{weight}
use pytvt.Protocol.Streams.{is_empty-drop}
use pytvt.Runtime.{max_runtime_response_bytes}
use pytvt.Runtime.Wire.{
  cons_line, line_of, LineRead, line, incomplete, too_large, exchange_failed, asked_size, left_over,
  read_on, read_rounds, read_line,
}

-- No byte is a newline.
abbrev pub IsPlainText : Bytes → Type 0
IsPlainText bs = All (λ b. b ≢ 10) bs

-- A first line of `bs`: plain text and a newline, with what comes after it.
pub record IsFirstLine (l bs : Bytes) : Type 0 where
  pub body : Bytes
  pub rest : Bytes
  pub plain : IsPlainText body
  pub ends : l ≡ body ++ 10 ∷ []
  pub within : l ++ rest ≡ bs

-- The bytes that come before a failure or the end, and the error that stands for it.
abbrev pub heard : List Incoming → Bytes × LineRead
heard [] = ([], incomplete)
heard (fails e ∷ more) = ([], exchange_failed)
heard (chunk c ∷ more) =
    let rest = heard more in if is_empty c then ([], incomplete) else (c ++ rest.0, rest.1)

-- What an answer is, of the bytes `bs` before an end: their first line, if it has at most one byte
-- more than the limit; too large, if more bytes than the limit come before a newline; or the end.
pub data Answers (bs : Bytes) (end : LineRead) (r : LineRead) : Type 0 where
  first_line :
      {l : Bytes}
      → IsFirstLine l bs
      → length l ≤ max_runtime_response_bytes + 1
      → r ≡ line l
      → Answers bs end r
  overlong :
      IsPlainText (take (max_runtime_response_bytes + 1) bs)
      → max_runtime_response_bytes < length bs
      → r ≡ too_large
      → Answers bs end r
  cut_off : IsPlainText bs → length bs ≤ max_runtime_response_bytes → r ≡ end → Answers bs end r

cons_line-IsFirstLine :
    (b : ℕ) (bs : Bytes)
    → b ≢ 10
    → (o : Option Bytes) → ((k : Bytes) → o ≡ some k → IsFirstLine k bs)
    → {l : Bytes} → cons_line b o ≡ some l
    → IsFirstLine l (b ∷ bs)
cons_line-IsFirstLine b bs ne none f h = absurd (none-ne-some _ h)
cons_line-IsFirstLine b bs ne (some l) f h =
    let first = f l refl in
    let e = some-injective _ _ h in
    record {
      body = b ∷ first.body;
      rest = first.rest;
      plain = (ne, first.plain);
      ends = sym e ∙ ap (λ xs. b ∷ xs) first.ends;
      within = ap (λ xs. xs ++ first.rest) (sym e) ∙ ap (λ xs. b ∷ xs) first.within;
    }

cons_line-none : (b : ℕ) (o : Option Bytes) → cons_line b o ≡ none → o ≡ none
cons_line-none b none h = refl
cons_line-none b (some l) h = absurd (none-ne-some _ (sym h))

line_of-IsFirstLine : (bs l : Bytes) → line_of bs ≡ some l → IsFirstLine l bs
line_of-IsFirstLine [] l h = absurd (none-ne-some _ h)
line_of-IsFirstLine (b ∷ bs) l h = elim (Bool-cases (b == 10)) [
  | inl e ↦
      let l_eq = some-injective _ _ (rw e at h) in
      let b_eq : b ≡ 10 = ground arith in
      record { body = []; rest = bs; plain = tt; ends = sym l_eq; within = rw (← l_eq, b_eq) refl }
  | inr e ↦
      cons_line-IsFirstLine b bs (ground arith) (line_of bs) (line_of-IsFirstLine bs) (rw e at h)
]

line_of-IsPlainText : (bs : Bytes) → line_of bs ≡ none → IsPlainText bs
line_of-IsPlainText [] h = tt
line_of-IsPlainText (b ∷ bs) h = elim (Bool-cases (b == 10)) [
  | inl e ↦ absurd (none-ne-some _ (sym (rw e at h)))
  | inr e ↦ (ground arith, line_of-IsPlainText bs (cons_line-none b (line_of bs) (rw e at h)))
]

asked_size_fits : (n : ℕ) → n ≤ max_runtime_response_bytes → 0 < asked_size n
asked_size_fits n h = ground arith

asked_size_bound :
    (n : ℕ) → n ≤ max_runtime_response_bytes → n + asked_size n ≤ max_runtime_response_bytes + 1
asked_size_bound n h = ground arith

append-take-drop : (n : ℕ) (bs : Bytes) → take n bs ++ drop n bs ≡ bs
append-take-drop zero bs = refl
append-take-drop (suc n) [] = refl
append-take-drop (suc n) (b ∷ bs) = ap (λ xs. b ∷ xs) (append-take-drop n bs)

take_all_of_short : (n : ℕ) (bs : Bytes) → length bs ≤ n → take n bs ≡ bs
take_all_of_short zero [] h = refl
take_all_of_short zero (b ∷ bs) h = absurd (omega arith)
take_all_of_short (suc n) [] h = refl
take_all_of_short (suc n) (b ∷ bs) h = ap (λ xs. b ∷ xs) (take_all_of_short n bs (omega arith))

-- A chunk of which `recv` hands out the first bytes, and what it leaves.
heard-left_over :
    (n : ℕ) (c : Bytes) (more : List Incoming)
    → is_empty c ≡ false
    → heard (chunk c ∷ more)
      ≡ (take n c ++ (heard (left_over n c more)).0, (heard (left_over n c more)).1)
heard-left_over n c more e = elim (Bool-cases (ltb n (length c))) [
  | inl lt ↦
      rw (lt, e)
        (rw (is_empty-drop n c (ground arith)) (
          ap (λ bs. (bs, (heard more).1))
            (ap (λ bs. bs ++ (heard more).0) (sym (append-take-drop n c))
              ∙ append_assoc (take n c) (drop n c) (heard more).0)))
  | inr ge ↦ rw (ge, e) (rw (take_all_of_short n c (ground arith)) refl)
]

weight-left_over :
    (n : ℕ) (c : Bytes) (more : List Incoming)
    → 0 < n
    → is_empty c ≡ false
    → weight (left_over n c more) < weight (chunk c ∷ more)
weight-left_over n [] more p e = cc
weight-left_over n (b ∷ c) more p e = elim (Bool-cases (ltb n (length (b ∷ c)))) [
  | inl lt ↦ rw (lt) (ground (arith, length-drop n (b ∷ c)))
  | inr ge ↦ rw (ge) (omega arith)
]

-- A line in the piece that was handed out.
line-Answers :
    (before piece more : Bytes) (end : LineRead) (l : Bytes)
    → IsPlainText before
    → length before + length piece ≤ max_runtime_response_bytes + 1
    → IsFirstLine l piece
    → Answers (before ++ (piece ++ more)) end (line (before ++ l))
line-Answers before piece more end l p h first =
    first_line {l = before ++ l}
      (record {
        body = before ++ first.body;
        rest = first.rest ++ more;
        plain = All-append (λ x. x ≢ 10) before first.body p first.plain;
        ends = ap (λ xs. before ++ xs) first.ends ∙ sym (append_assoc before first.body (10 ∷ []));
        within =
            append_assoc before l (first.rest ++ more)
            ∙ ap (λ xs. before ++ xs)
                (sym (append_assoc l first.rest more) ∙ ap (λ xs. xs ++ more) first.within);
      })
      (omega (arith, length-append before l, length-append l first.rest, ap length first.within))
      refl

-- The piece fills the limit without a newline.
overlong-Answers :
    (before piece more : Bytes) (end : LineRead)
    → IsPlainText (before ++ piece)
    → length (before ++ piece) ≡ max_runtime_response_bytes + 1
    → Answers ((before ++ piece) ++ more) end too_large
overlong-Answers before piece more end p h =
    overlong
      (subst (λ n. IsPlainText (take n ((before ++ piece) ++ more))) h
        (subst IsPlainText (sym (take-append (before ++ piece) more)) p))
      (omega (arith, length-append (before ++ piece) more)) refl

read_on-Answers :
    (before piece more : Bytes) (end rest : LineRead)
    → IsPlainText before
    → length before + length piece ≤ max_runtime_response_bytes + 1
    → (IsPlainText (before ++ piece)
        → length (before ++ piece) ≤ max_runtime_response_bytes
        → Answers ((before ++ piece) ++ more) end rest)
    → Answers (before ++ (piece ++ more)) end (read_on before piece (line_of piece) rest)
read_on-Answers before piece more end rest p h k = by_line (line_of piece) refl
  where
    by_line :
        (o : Option Bytes)
        → line_of piece ≡ o
        → Answers (before ++ (piece ++ more)) end (read_on before piece o rest)
    by_line (some l) e = line-Answers before piece more end l p h (line_of-IsFirstLine piece l e)
    by_line none e =
        let plain = All-append (λ x. x ≢ 10) before piece p (line_of-IsPlainText piece e) in
        let size = length-append before piece in
        rw (← append_assoc before piece more)
          (elim (Bool-cases (ltb max_runtime_response_bytes (length before + length piece))) [
            | inl gt ↦ rw (gt) (overlong-Answers before piece more end plain (ground arith))
            | inr le ↦ rw (le) (k plain (ground arith))
          ])

cut_off-Answers :
    (before : Bytes) (end : LineRead)
    → IsPlainText before
    → length before ≤ max_runtime_response_bytes
    → Answers (before ++ []) end end
cut_off-Answers before end p h = rw (append-nil) (cut_off p h refl)

is_empty-take : (n : ℕ) (c : Bytes) → 0 < n → is_empty (take n c) ≡ is_empty c
is_empty-take zero c h = absurd (omega arith)
is_empty-take (suc n) [] h = refl
is_empty-take (suc n) (b ∷ c) h = refl

read_rounds-Answers :
    (f : ℕ) (before : Bytes) (answers : List Incoming)
    → IsPlainText before
    → length before ≤ max_runtime_response_bytes
    → weight answers < f
    → Answers (before ++ (heard answers).0) (heard answers).1 (read_rounds f before answers)
unfolding read_rounds
read_rounds-Answers zero before answers p h w = absurd (omega arith)
read_rounds-Answers (suc f) before [] p h w = cut_off-Answers before incomplete p h
read_rounds-Answers (suc f) before (fails e ∷ more) p h w =
    cut_off-Answers before exchange_failed p h
read_rounds-Answers (suc f) before (chunk c ∷ more) p h w =
    let size = asked_size (length before) in
    let fits = asked_size_fits (length before) h in
    let left = left_over size c more in
    elim (Bool-cases (is_empty c)) [
      | inl e ↦ rw (is_empty-take size c fits, e) (cut_off-Answers before incomplete p h)
      | inr e ↦
          subst
            (λ (x : Bytes × LineRead).
              Answers (before ++ x.0) x.1 (read_rounds (suc f) before (chunk c ∷ more)))
            (sym (heard-left_over size c more e))
            (rw (is_empty-take size c fits, e)
              (read_on-Answers before (take size c) (heard left).0 (heard left).1 _ p
                (omega (arith, asked_size_bound (length before) h, length-take-le size c))
                (λ q s.
                  read_rounds-Answers f (before ++ take size c) left q s
                    (omega (arith, weight-left_over size c more fits e)))))
    ]

-- An answer of the runtime is read as the bytes that come before a failure or the end say, however
-- they are cut in chunks, and no chunk is too long: a first line of at most one byte more than the
-- limit is the answer, with no byte missing or changed; more bytes than the limit before a newline are
-- too large; and fewer of them are the error of the end. The loop ends.
pub read_line-Answers :
    (answers : List Incoming) → Answers (heard answers).0 (heard answers).1 (read_line answers)
unfolding read_line
read_line-Answers answers =
    read_rounds-Answers (suc (weight answers)) [] answers tt (omega arith) (omega arith)
