-- ===== src/Protocol/Streams.antt =====
-- That reads of a socket do not depend on how the bytes come in chunks, and that they end.
use pytvt.Prelude.{
  ℕ, zero, suc, ◌+◌, ◌-◌, ◌≤◌, ◌<◌, ◌≡◌, refl, ap, ◌∙◌, true, false, List, [], ◌∷◌, ◌++◌, ltb, leb,
  length, is_empty, length-append, arith, Bool-cases, inl, inr,
}
use mathlib.Core.Path.{ap₂}
use mathlib.Core.List.{append_assoc, append-nil, nil≢cons, head-eq_of_cons-eq, tail-eq_of_cons-eq}
use pytvt.Prelude.Bytes.{Bytes, take, drop}
use pytvt.Protocol.Socket.{
  Incoming, chunk, fails, Inbound, then_read, got, Reader, recv_from, recv_exact,
}

-- Bytes that come without a failure, in chunks that are not empty, and their concatenation.
abbrev pub IsFlowing : List Incoming → Type 0
IsFlowing [] = Unit
IsFlowing (chunk c ∷ more) = (is_empty c ≡ false) × IsFlowing more
IsFlowing (fails e ∷ more) = ⊥

abbrev pub byte_stream : List Incoming → Bytes
byte_stream [] = []
byte_stream (chunk c ∷ more) = c ++ byte_stream more
byte_stream (fails e ∷ more) = byte_stream more

-- A read that gives `bs` and leaves `rest` of the stream.
abbrev pub Reads {ℓ} : {A : Type ℓ} → Inbound A → A → Bytes → Type ℓ
Reads r a rest =
    (sock : List Incoming) × (r ≡ got a sock) × (byte_stream sock ≡ rest) × IsFlowing sock

short_prefix :
    (c m want rest : Bytes)
    → c ++ m ≡ want ++ rest
    → length want ≤ length c
    → (take (length want) c ≡ want) × (drop (length want) c ++ m ≡ rest)
short_prefix c m [] rest e h = (refl, e)
short_prefix [] m (w ∷ want) rest e h = absurd (omega arith)
short_prefix (x ∷ c) m (w ∷ want) rest e h =
    let (p, q) = short_prefix c m want rest (tail-eq_of_cons-eq e) (omega arith) in
    (ap₂ (λ y ys. y ∷ ys) (head-eq_of_cons-eq e) p, q)

long_prefix :
    (c m want rest : Bytes)
    → c ++ m ≡ want ++ rest
    → length c ≤ length want
    → (c ++ drop (length c) want ≡ want) × (m ≡ drop (length c) want ++ rest)
long_prefix [] m want rest e h = (refl, e)
long_prefix (x ∷ c) m [] rest e h = absurd (omega arith)
long_prefix (x ∷ c) m (w ∷ want) rest e h =
    let (p, q) = long_prefix c m want rest (tail-eq_of_cons-eq e) (omega arith) in
    (ap₂ (λ y ys. y ∷ ys) (head-eq_of_cons-eq e) p, q)

pub is_empty-drop : (n : ℕ) (xs : Bytes) → n < length xs → is_empty (drop n xs) ≡ false
is_empty-drop zero [] h = absurd (omega arith)
is_empty-drop zero (x ∷ xs) h = refl
is_empty-drop (suc n) [] h = absurd (omega arith)
is_empty-drop (suc n) (x ∷ xs) h = is_empty-drop n xs (omega arith)

-- A loop that wants `want` more bytes gets them, and leaves the rest of the stream.
recv_from-Reads :
    (n : ℕ) (buf : Bytes) (sock : List Incoming) (want rest : Bytes)
    → IsFlowing sock
    → byte_stream sock ≡ want ++ rest
    → length buf + length want ≡ n
    → Reads (recv_from n buf sock) (buf ++ want) rest
unfolding recv_from
recv_from-Reads n buf [] [] [] f e h = ([], rw (append-nil) (rw (enough) refl), refl, tt)
  where
    enough : leb n (length buf) ≡ true
    enough = ground arith
recv_from-Reads n buf [] [] (r ∷ rest) f e h = absurd (nil≢cons e)
recv_from-Reads n buf [] (w ∷ want) rest f e h = absurd (nil≢cons e)
recv_from-Reads n buf (fails x ∷ more) want rest f e h = absurd f
recv_from-Reads n buf (chunk c ∷ more) [] rest f e h =
    (chunk c ∷ more, rw (append-nil) (rw (enough) refl), e, f)
  where
    enough : leb n (length buf) ≡ true
    enough = ground arith
recv_from-Reads n buf (chunk c ∷ more) (w ∷ want) rest f e h =
    rw (unread, f.0)
      (elim (Bool-cases (ltb (n - length buf) (length c))) [
        | inl lt ↦
            let (p, q) = short_prefix c (byte_stream more) (w ∷ want) rest e (ground arith) in
            rw (lt) (
              rw (size) (
                chunk (drop (length (w ∷ want)) c) ∷ more,
                ap (λ l. got (buf ++ l) (chunk (drop (length (w ∷ want)) c) ∷ more)) p,
                q,
                (is_empty-drop (length (w ∷ want)) c (ground arith), f.1),
              ))
        | inr ge ↦
            let (p, q) = long_prefix c (byte_stream more) (w ∷ want) rest e (ground arith) in
            let after = drop (length c) (w ∷ want) in
            let (sock, r, t, g) =
              recv_from-Reads n (buf ++ c) more after rest f.1 q
                (omega (arith, ap length p, length-append c after, length-append buf c)) in
            rw (ge) (
              sock,
              r ∙ ap (λ l. got l sock) (append_assoc buf c after ∙ ap (λ l. buf ++ l) p),
              t,
              g,
            )
      ])
  where
    unread : leb n (length buf) ≡ false
    unread = ground arith

    size : n - length buf ≡ length (w ∷ want)
    size = omega arith

-- `_recv_exact(sock, n)` gives the next `n` bytes, however they come in chunks.
pub recv_exact-Reads :
    (n : ℕ) (sock : List Incoming) (want rest : Bytes)
    → IsFlowing sock
    → byte_stream sock ≡ want ++ rest
    → length want ≡ n
    → Reads (recv_exact n sock) want rest
unfolding recv_exact
recv_exact-Reads n sock want rest f e h = recv_from-Reads n [] sock want rest f e (omega arith)

-- A reader that goes on after one that has read.
pub then_read-Reads {ℓ κ} :
    {A : Type ℓ} {B : Type κ} (r : Inbound A) (k : A → Reader B) (a : A) (mid rest : Bytes) (b : B)
    → Reads r a mid
    → ((sock : List Incoming) → byte_stream sock ≡ mid → IsFlowing sock → Reads (k a sock) b rest)
    → Reads (then_read r k) b rest
then_read-Reads r k a mid rest b (sock, e, s, f) go = rw (e) (go sock s f)
