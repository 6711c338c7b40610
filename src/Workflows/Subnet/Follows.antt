-- ===== src/Workflows/Subnet/Follows.antt =====
-- What the results of a subnet change say of the plans.
use pytvt.Prelude.{
  ◌+◌, String, ◌≡◌, refl, ◌∙◌, ap, not, List, [], ◌∷◌, map, arith, Bool-cases, inl, inr, length,
  count_if, All,
}
use pytvt.Workflows.Base.{is_blank}
use pytvt.Workflows.Subnet.{CameraReaddressPlan, CameraReaddressResult, is_failed, is_readdressed}

-- Old address, new address and MAC.
abbrev pub move_of : CameraReaddressResult → String × String × String
move_of r = (r.old_ip, r.new_ip, r.mac)

abbrev pub move_planned : CameraReaddressPlan → String × String × String
move_planned p = (p.old_ip, p.new_ip, p.mac)

-- A result of an applied run: readdressed or failed, with an error exactly where it failed.
abbrev pub IsSettled : CameraReaddressResult → Type 0
IsSettled r = (is_readdressed r ≡ not (is_failed r)) × (is_blank r.error ≡ not (is_failed r))

-- The results so far are those of the plans `ps`.
pub record Follows (ps : List CameraReaddressPlan) (rs : List CameraReaddressResult) : Type 0 where
  pub moves : map move_of rs ≡ map move_planned ps
  pub settled : All IsSettled rs

pub settled_partition :
    (rs : List CameraReaddressResult)
    → All IsSettled rs
    → count_if is_readdressed rs + count_if is_failed rs ≡ length rs
unfolding count_if
settled_partition [] h = refl
settled_partition (r ∷ rs) h = elim (Bool-cases (is_failed r)) [
  | inl e ↦ rw (e, h.0.0 ∙ ap not e) (omega (arith, settled_partition rs h.1))
  | inr e ↦ rw (e, h.0.0 ∙ ap not e) (omega (arith, settled_partition rs h.1))
]
