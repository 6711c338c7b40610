-- ===== src/Workflows/Rotate/Tally.antt =====
-- Results counted by their status, and the channel that a result is about.
use mathlib.Core.List.{Perm, perm_middle, map-append, append_assoc, append-nil}
use mathlib.Core.List.Perm
use native.Mathlib.Nat.{add-zero, add-suc, suc-add}
use pytvt.Prelude.{
  ℕ, suc, ◌+◌, String, ◌≡◌, refl, length, Bool, true, false, not, ◌||◌, List, [], ◌∷◌, ◌++◌, map,
  arith, if◌then◌else◌, count_if, count_if-append, All, All-append,
}
use pytvt.Workflows.Base.{Text, is_blank}
use pytvt.Workflows.Client.{Channel}
use pytvt.Workflows.Rotate.{
  ChannelRotationResult, already_in_sync, already_ours, rotated_via_force, synced_via_pass_a,
  rotated_via_pass_b, skipped, is_failed, result,
}

abbrev pub is_rotated : ChannelRotationResult → Bool
is_rotated r = elim r.status [ rotated_via_force ↦ true | rotated_via_pass_b ↦ true | _ ↦ false ]

abbrev pub is_synced : ChannelRotationResult → Bool
is_synced r = elim r.status [ synced_via_pass_a ↦ true | _ ↦ false ]

abbrev pub is_already_ok : ChannelRotationResult → Bool
is_already_ok r = elim r.status [ already_in_sync ↦ true | already_ours ↦ true | _ ↦ false ]

abbrev pub is_skipped : ChannelRotationResult → Bool
is_skipped r = elim r.status [ skipped ↦ true | _ ↦ false ]

-- Channel number, device and address.
abbrev pub Subject : Type 0
Subject = ℕ × String × String

abbrev pub subject : ChannelRotationResult → Subject
subject r = (r.chl_num, r.dev_id, r.ip)

abbrev pub subject_of : Channel → Subject
subject_of ch = (ch.chl_num, ch.dev_id, ch.ip)

-- `error` is set exactly where the status is "failed"; the dry run gives a reason too.
abbrev pub IsTold : ChannelRotationResult → Type 0
IsTold r = is_blank r.error ≡ not (is_failed r || is_skipped r)

abbrev one_if : Bool → ℕ
one_if b = if b then 1 else 0

-- A run in the middle: `rs` are the results so far, `pending` the channels that have none yet, and
-- the numbers count the results of each kind. `all` is what the run has to account for.
pub record Ledger (all : List Subject) (rs : List ChannelRotationResult) (pending : List Channel)
    (rotated synced already dropped : ℕ) : Type 0 where
  pub account : Perm (map subject rs ++ map subject_of pending) all
  pub told : All IsTold rs
  pub rotated_count : count_if is_rotated rs ≡ rotated
  pub synced_count : count_if is_synced rs ≡ synced
  pub already_count : count_if is_already_ok rs ≡ already
  pub skipped_count : count_if is_skipped rs ≡ dropped

-- One result more of each kind that `r` has.
abbrev Grows : ChannelRotationResult → (ro sy al sk ro' sy' al' sk' : ℕ) → Type 0
Grows r ro sy al sk ro' sy' al' sk' =
    (ro + one_if (is_rotated r) ≡ ro')
    × (sy + one_if (is_synced r) ≡ sy')
    × (al + one_if (is_already_ok r) ≡ al')
    × (sk + one_if (is_skipped r) ≡ sk')

module _ (all : List Subject) (rs : List ChannelRotationResult) (pre post : List Channel)
    (ch : Channel) where
  account-snoc :
      (r : ChannelRotationResult)
      → subject r ≡ subject_of ch
      → Perm (map subject rs ++ map subject_of (pre ++ ch ∷ post)) all
      → Perm (map subject (rs ++ r ∷ []) ++ map subject_of (pre ++ post)) all
  account-snoc r e h =
      Perm.trans
        (rw (map-append subject rs (r ∷ []), append_assoc, map-append subject_of pre post, e)
          (Perm.append_left (map subject rs)
            (Perm.symm (perm_middle (map subject_of pre) (map subject_of post)))))
        (rw (map-append subject_of pre (ch ∷ post)) at h)

  -- The channel gets its result, from anywhere among the pending ones.
  pub Ledger-add :
      (r : ChannelRotationResult) {ro sy al sk ro' sy' al' sk' : ℕ}
      → subject r ≡ subject_of ch
      → IsTold r
      → Grows r ro sy al sk ro' sy' al' sk'
      → Ledger all rs (pre ++ ch ∷ post) ro sy al sk
      → Ledger all (rs ++ r ∷ []) (pre ++ post) ro' sy' al' sk'
  unfolding count_if
  Ledger-add r e t g h = record {
    account = account-snoc r e h.account;
    told = All-append IsTold rs (r ∷ []) h.told (t, tt);
    rotated_count = rw (count_if-append is_rotated rs (r ∷ [])) (omega arith);
    synced_count = rw (count_if-append is_synced rs (r ∷ [])) (omega arith);
    already_count = rw (count_if-append is_already_ok rs (r ∷ [])) (omega arith);
    skipped_count = rw (count_if-append is_skipped rs (r ∷ [])) (omega arith);
  }

-- One result each for a list of channels, all of the same kind.
pub Ledger-in_sync :
    (all : List Subject) (chs post : List Channel) (rs : List ChannelRotationResult) (al : ℕ)
    → Ledger all rs (chs ++ post) 0 0 al 0
    → Ledger all (rs ++ map (λ ch. result ch already_in_sync []) chs) post 0 0 (al + length chs) 0
Ledger-in_sync all [] post rs al h = rw (append-nil, add-zero) h
Ledger-in_sync all (ch ∷ chs) post rs al h =
    rw (← append_assoc rs (result ch already_in_sync [] ∷ []), add-suc, ← suc-add)
      (Ledger-in_sync all chs post (rs ++ result ch already_in_sync [] ∷ []) (suc al)
        (Ledger-add all rs [] (chs ++ post) ch _ refl refl (omega arith) h))

pub Ledger-skipped :
    (all : List Subject) (reason : Text) (chs post : List Channel) (rs : List ChannelRotationResult)
    (al sk : ℕ)
    → is_blank reason ≡ false
    → Ledger all rs (chs ++ post) 0 0 al sk
    → Ledger all (rs ++ map (λ ch. result ch skipped reason) chs) post 0 0 al (sk + length chs)
Ledger-skipped all reason [] post rs al sk t h = rw (append-nil, add-zero) h
Ledger-skipped all reason (ch ∷ chs) post rs al sk t h =
    rw (← append_assoc rs (result ch skipped reason ∷ []), add-suc, ← suc-add)
      (Ledger-skipped all reason chs post (rs ++ result ch skipped reason ∷ []) al (suc sk) t
        (Ledger-add all rs [] (chs ++ post) ch _ refl t (omega arith) h))

-- Every result is of one kind.
pub kinds_partition :
    (rs : List ChannelRotationResult)
    → count_if is_rotated rs
        + count_if is_synced rs
        + count_if is_already_ok rs
        + count_if is_skipped rs
        + count_if is_failed rs
      ≡ length rs
unfolding count_if
kinds_partition [] = omega arith
kinds_partition (r ∷ rs) = ground (arith, kinds_partition rs)
