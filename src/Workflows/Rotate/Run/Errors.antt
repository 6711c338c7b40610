-- ===== src/Workflows/Rotate/Run/Errors.antt =====
-- How a password rotation ends by an exception.
use pytvt.Prelude.{
  ◌≡◌, refl, Bool, true, false, List, ◌⊎◌, inl, inr, str_eq, eq_iff, Bool-cases, Option-cases,
}
use pytvt.Workflows.Base.{Text, Reply, ok, exc, Outcome, raises, precheck_error}
use pytvt.Workflows.Client.{Channel, IpAddress, NvrClient, RunState}
use pytvt.Workflows.Rotate.{RotateArgs}
use pytvt.Workflows.Rotate.Select.{PasswordRotateResult, candidates}
use pytvt.Workflows.Rotate.Run.{discovered, rotate_nvr_channel_passwords}
use pytvt.Workflows.Rotate.Run.Accounting.{IsAccounted, returned, requery_failed}
use pytvt.Workflows.Rotate.Run.Scope.{rotate_candidates-Accounts}

abbrev is_precheck : Outcome PasswordRotateResult → Bool
is_precheck (raises (precheck_error t)) = true
is_precheck _ = false

accounted_no_precheck :
    {cands : List Channel} {o : Outcome PasswordRotateResult}
    → IsAccounted cands o
    → is_precheck o ≡ false
accounted_no_precheck (returned h) = refl
accounted_no_precheck (requery_failed e) = refl

discovered_no_precheck :
    (c : NvrClient) (ip : IpAddress) (a : RotateArgs) (r : Reply (List Channel)) (s : RunState c)
    → is_precheck (discovered c ip a r s).0 ≡ false
unfolding discovered
discovered_no_precheck c ip a (exc e) s = refl
discovered_no_precheck c ip a (ok chs) s = elim (Option-cases (candidates ip a chs)) [
  | inl e ↦ rw (e, discovered) refl
  | inr (cands, e) ↦
      rw (e, discovered) (accounted_no_precheck (rotate_candidates-Accounts c a cands s))
]

-- A run that raises `WorkflowPrecheckError` was given an empty new password, or one that equals the
-- old one; it has asked nothing, written nothing and emitted no event.
pub rotate_precheck :
    (c : NvrClient) (ip : IpAddress) (a : RotateArgs) (s : RunState c) (t : Text)
    → (rotate_nvr_channel_passwords c ip a s).0 ≡ raises (precheck_error t)
    → ((a.new_password ≡ "") ⊎ (a.new_password ≡ a.old_password))
      × ((rotate_nvr_channel_passwords c ip a s).1 ≡ s)
unfolding rotate_nvr_channel_passwords
rotate_precheck c ip a s t h =
    go (Bool-cases (str_eq a.new_password "")) (Bool-cases (str_eq a.new_password a.old_password))
  where
    checked : is_precheck (rotate_nvr_channel_passwords c ip a s).0 ≡ true
    checked = rw h refl

    go :
        (str_eq a.new_password "" ≡ true) ⊎ (str_eq a.new_password "" ≡ false)
        → (str_eq a.new_password a.old_password ≡ true)
          ⊎ (str_eq a.new_password a.old_password ≡ false)
        → ((a.new_password ≡ "") ⊎ (a.new_password ≡ a.old_password))
          × ((rotate_nvr_channel_passwords c ip a s).1 ≡ s)
    go (inl f) g = (inl ((eq_iff a.new_password "").0 f), rw f refl)
    go (inr f) (inl g) = (inr ((eq_iff a.new_password a.old_password).0 g), rw (f, g) refl)
    go (inr f) (inr g) =
        let d =
          discovered_no_precheck c ip a (NvrClient.query_channels c s.world).0
            (record s { world = (NvrClient.query_channels c s.world).1 }) in
        absurd (cc (rw (f, g) at checked, d))
