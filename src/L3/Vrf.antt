-- ===== src/L3/Vrf.antt =====
-- internal/resources/l3/vrf.go. The reads are in Vrf/Read.
pub mod Read
pub mod Laws
use pulumi_eos.Base.{
  ℕ, ◌+◌, Bool, true, false, not, ◌&&◌, leb, List, [], ◌∷◌, ◌++◌, map, Option, none, some,
  if◌then◌else◌,
}
use pulumi_eos.Text.{Str, codes, str_eq, trim_space}
use pulumi_eos.Errors.{GoError, sentinel, text, Result, ok, err, ◌>>=◌, ◌>>◌, refuse_if}
use pulumi_eos.Resource.{Access}
use pulumi_eos.Resource.Kind.{Kind}
use pulumi_eos.Commands.{set_text, is_on}

abbrev pub err_vrf_name_required : GoError
err_vrf_name_required = sentinel (codes "vrf name is required")

abbrev pub err_vrf_name_reserved : GoError
err_vrf_name_reserved = sentinel (codes "vrf name 'default' is reserved")

pub record VrfArgs : Type 0 where
  pub name : Str
  pub description : Option Str
  pub ip_routing : Option Bool
  pub ipv6_routing : Option Bool
  pub access : Access

abbrev pub lower : ℕ → ℕ
lower c = if leb b'A' c && leb c b'Z' then c + 32 else c

-- strings.EqualFold(s, "default"): no letter of that word folds to a rune outside ASCII.
abbrev pub folds_to_default : Str → Bool
folds_to_default s = str_eq (map lower s) (codes "default")

unfoldable pub validate_vrf : VrfArgs → Result (Unit {0})
unfolding str_eq trim_space
validate_vrf a = do
  refuse_if (str_eq (trim_space a.name) []) err_vrf_name_required
  refuse_if (folds_to_default (trim_space a.name)) err_vrf_name_reserved

unfoldable pub vrf_id : Str → Str
vrf_id name = codes "vrf/" ++ name

-- The session's own part of the name, in `applyVrf`: the name as it stands.
unfoldable pub vrf_tag : Str → Str
vrf_tag name = codes "vrf-" ++ name

abbrev pub description_cmd : Option Str → Str
description_cmd o = elim (set_text o) [
  | some s ↦ codes "description " ++ s
  | none ↦ codes "no description"
]

-- `p == nil || *p`
abbrev pub on_by_default : Option Bool → Bool
on_by_default none = true
on_by_default (some b) = b

abbrev pub switched : Bool → Str → Str
switched true line = line
switched false line = codes "no " ++ line

unfoldable pub build_vrf_cmds : VrfArgs → Bool → List Str
unfolding str_eq
build_vrf_cmds a remove =
    if remove
    then (codes "no ip routing vrf " ++ a.name)
      ∷ (codes "no ipv6 unicast-routing vrf " ++ a.name)
      ∷ (codes "no vrf instance " ++ a.name)
      ∷ []
    else (codes "vrf instance " ++ a.name)
      ∷ description_cmd a.description
      ∷ codes "exit"
      ∷ switched (on_by_default a.ip_routing) (codes "ip routing vrf " ++ a.name)
      ∷ switched (is_on a.ipv6_routing) (codes "ipv6 unicast-routing vrf " ++ a.name)
      ∷ []

-- Create, Update and Delete.
unfoldable pub vrf : Kind VrfArgs
unfolding validate_vrf vrf_id vrf_tag build_vrf_cmds
vrf = record {
  validate = validate_vrf;
  id = λ a. vrf_id a.name;
  tag = λ a. vrf_tag a.name;
  commands = build_vrf_cmds;
  prepare = λ a. ok tt;
  access = λ a. a.access;
  label = codes "vrf %s";
  operands = λ a. text a.name ∷ [];
}
