-- ===== src/Workflows/Rotate/PassA/Laws.antt =====
-- In pass A a channel either fails, with a result, or stays for the second query; there it gets its
-- result or stays for pass B.
use mathlib.Core.List.{append_assoc}
use pytvt.Prelude.{
  ℕ, String, refl, Option, List, [], ◌∷◌, ◌++◌, arith, Bool-cases, inl, inr, length, length-append,
}
use pytvt.Workflows.Base.{Reply, ok, exc}
use pytvt.Workflows.Client.{Channel, NvrClient, RunState}
use pytvt.Workflows.Rotate.{RotateArgs}
use pytvt.Workflows.Rotate.Tally.{Ledger, Ledger-add, Subject}
use pytvt.Workflows.Rotate.PassA.{
  PushState, SortState, pushed, push_step, push_all, came_online, sort_step, sort_all,
}

module _ (c : NvrClient) (a : RotateArgs) (all : List Subject) (ro al : ℕ) where
  abbrev pub PushLedger : PushState → List Channel → Type 0
  PushLedger st post = Ledger all st.results (st.attempted ++ post) ro 0 al 0

  pushed-Ledger :
      (ch : Channel) (st : PushState) (post : List Channel) (r : Reply Unit) (s : RunState c)
      → PushLedger st (ch ∷ post)
      → PushLedger (pushed c a ch st r s).0 post
  unfolding pushed
  pushed-Ledger ch st post (ok _) s h = rw append_assoc h
  pushed-Ledger ch st post (exc e) s h =
      Ledger-add all st.results st.attempted post ch _ refl refl (omega arith) h

  pub push_all-Ledger :
      (chs : List Channel) (st : PushState) (s : RunState c)
      → PushLedger st chs
      → PushLedger (push_all c a chs st s).0 []
  unfolding push_all push_step
  push_all-Ledger [] st s h = h
  push_all-Ledger (ch ∷ chs) st s h = push_all-Ledger chs _ _ (pushed-Ledger ch st chs _ _ h)

module _ (c : NvrClient) (latest : String → Option Channel) (all : List Subject) (ro al : ℕ) where
  abbrev pub SortLedger : SortState → List Channel → Type 0
  SortLedger st post = Ledger all st.results (st.still_offline ++ post) ro (length st.synced) al 0

  sort_step-Ledger :
      (ch : Channel) (st : SortState) (post : List Channel) (s : RunState c)
      → SortLedger st (ch ∷ post)
      → SortLedger (sort_step c latest ch st s).0 post
  unfolding sort_step
  sort_step-Ledger ch st post s h = elim (Bool-cases (came_online (latest ch.dev_id))) [
    | inl e ↦ rw e (
        Ledger-add all st.results st.still_offline post ch _ refl refl
          (omega (arith, length-append st.synced (ch ∷ []))) h)
    | inr e ↦ rw e (rw append_assoc h)
  ]

  pub sort_all-Ledger :
      (chs : List Channel) (st : SortState) (s : RunState c)
      → SortLedger st chs
      → SortLedger (sort_all c latest chs st s).0 []
  unfolding sort_all
  sort_all-Ledger [] st s h = h
  sort_all-Ledger (ch ∷ chs) st s h = sort_all-Ledger chs _ _ (sort_step-Ledger ch st chs s h)
