-- ===== src/L3/PrefixList.antt =====
-- internal/resources/l3/prefix_list.go. The grepped configuration is read in PrefixList/Parse.
pub mod Parse
pub mod Laws
pub mod Transactions
pub mod Order
pub mod Echo
pub mod Lines
pub mod Walk
pub mod Shown
use pulumi_eos.Base.{
  ℕ, Bool, true, false, not, ◌&&◌, ◌||◌, ◌==◌, List, [], ◌∷◌, ◌++◌, map, Option, none, some,
  if◌then◌else◌, ℤ, pos, negsuc, ltb_ℤ, eqb_ℤ,
}
use pulumi_eos.Text.{Str, codes, str_eq, trim_space, join}
use pulumi_eos.Text.Decimal.{itoa}
use pulumi_eos.Text.Netip.{parse_prefix4}
use pulumi_eos.Errors.{
  GoError, sentinel, wrapped, text, number, Result, ok, err, ◌>>=◌, ◌>>◌, refuse_if, wrap_err,
}
use pulumi_eos.Goeapi.{Goeapi}
use pulumi_eos.Std.{Std}
use pulumi_eos.Config.{Config}
use pulumi_eos.Commands.{set_text}
use pulumi_eos.Resource.{Access, CreateResponse, Op, apply_with, submit_with, delete_with}

abbrev pub err_prefix_list_name_required : GoError
err_prefix_list_name_required = sentinel (codes "prefixList name is required")

abbrev pub err_prefix_list_entries_empty : GoError
err_prefix_list_entries_empty = sentinel (codes "prefixList must have at least one entry")

abbrev pub err_prefix_list_seq_out_of_range : GoError
err_prefix_list_seq_out_of_range = sentinel (codes "prefixList entry seq must be in 0..65535")

abbrev pub err_prefix_list_seq_duplicate : GoError
err_prefix_list_seq_duplicate =
    sentinel (codes "prefixList entry seq numbers must be unique within a list")

abbrev pub err_prefix_list_action_invalid : GoError
err_prefix_list_action_invalid =
    sentinel (codes "prefixList entry action must be 'permit' or 'deny'")

abbrev pub err_prefix_list_bad_prefix : GoError
err_prefix_list_bad_prefix = sentinel (codes "prefixList entry prefix must be a valid IPv4 CIDR")

abbrev pub err_prefix_list_mask_out_of_range : GoError
err_prefix_list_mask_out_of_range = sentinel (codes "prefixList eq / ge / le must be in 1..32")

abbrev pub err_prefix_list_mask_combo : GoError
err_prefix_list_mask_combo = sentinel (codes "prefixList eq is mutually exclusive with ge / le")

abbrev pub err_prefix_list_ge_le_order : GoError
err_prefix_list_ge_le_order = sentinel (codes "prefixList ge must be <= le when both are set")

abbrev pub err_prefix_list_ge_at_least_pfx : GoError
err_prefix_list_ge_at_least_pfx = sentinel (codes "prefixList ge must be >= the prefix length")

pub record PrefixListEntry : Type 0 where
  pub seq : ℤ
  pub action : Str
  pub prefix : Str
  pub eq : Option ℤ
  pub ge : Option ℤ
  pub le : Option ℤ

pub record PrefixListArgs : Type 0 where
  pub name : Str
  pub remark : Option Str
  pub entries : List PrefixListEntry
  pub access : Access

abbrev pub known_action : Str → Bool
known_action a = str_eq a (codes "permit") || str_eq a (codes "deny")

abbrev pub is_set {ℓ} : {A : Type ℓ} → Option A → Bool
is_set none = false
is_set (some a) = true

-- One round of the loop over `eq`, `ge` and `le`.
abbrev pub check_mask : Option ℤ → Result (Unit {0})
check_mask none = ok tt
check_mask (some m) =
    refuse_if (ltb_ℤ m (pos 1) || ltb_ℤ (pos 32) m)
      (wrapped (codes "%w: got %d") (number m ∷ []) err_prefix_list_mask_out_of_range)

abbrev pub check_order : Option ℤ → Option ℤ → Result (Unit {0})
check_order (some ge) (some le) =
    refuse_if (ltb_ℤ le ge)
      (wrapped (codes "%w: ge=%d le=%d") (number ge ∷ number le ∷ []) err_prefix_list_ge_le_order)
check_order _ _ = ok tt

abbrev pub check_ge : Option ℤ → ℤ → Result (Unit {0})
check_ge none bits = ok tt
check_ge (some ge) bits = refuse_if (ltb_ℤ ge bits) (
    wrapped (codes "%w: prefix-len=%d ge=%d") (number bits ∷ number ge ∷ [])
      err_prefix_list_ge_at_least_pfx)

abbrev pub bits_result : Str → Option ℤ → Result ℤ
bits_result p (some bits) = ok bits
bits_result p none = err (wrapped (codes "%w: %q") (text p ∷ []) err_prefix_list_bad_prefix)

unfoldable pub validate_prefix_list_entry : PrefixListEntry → Result (Unit {0})
unfolding str_eq parse_prefix4
validate_prefix_list_entry e = do
  refuse_if (ltb_ℤ e.seq (pos 0) || ltb_ℤ (pos 65535) e.seq)
      (wrapped (codes "%w: got %d") (number e.seq ∷ []) err_prefix_list_seq_out_of_range)
  refuse_if (not (known_action e.action))
      (wrapped (codes "%w: got %q") (text e.action ∷ []) err_prefix_list_action_invalid)
  bits ← bits_result e.prefix (parse_prefix4 e.prefix)
  refuse_if (is_set e.eq && (is_set e.ge || is_set e.le)) err_prefix_list_mask_combo
  check_mask e.eq
  check_mask e.ge
  check_mask e.le
  check_order e.ge e.le
  check_ge e.ge bits

-- The keys of the map `seen`.
unfoldable pub seen_before : ℤ → List ℤ → Bool
seen_before n [] = false
seen_before n (m ∷ seen) = eqb_ℤ m n || seen_before n seen

unfoldable pub validate_entries : List ℤ → List PrefixListEntry → Result (Unit {0})
unfolding validate_prefix_list_entry seen_before
validate_entries seen [] = ok tt
validate_entries seen (e ∷ rest) = do
  wrap_err (codes "entry %d: %w") (number e.seq ∷ []) (validate_prefix_list_entry e)
  refuse_if (seen_before e.seq seen)
      (wrapped (codes "%w: %d") (number e.seq ∷ []) err_prefix_list_seq_duplicate)
  validate_entries (e.seq ∷ seen) rest

abbrev pub is_empty {ℓ} : {A : Type ℓ} → List A → Bool
is_empty [] = true
is_empty (x ∷ xs) = false

unfoldable pub validate_prefix_list : PrefixListArgs → Result (Unit {0})
unfolding trim_space str_eq validate_entries
validate_prefix_list a = do
  refuse_if (str_eq (trim_space a.name) []) err_prefix_list_name_required
  refuse_if (is_empty a.entries) err_prefix_list_entries_empty
  validate_entries [] a.entries

unfoldable pub prefix_list_id : Str → Str
prefix_list_id name = codes "prefix-list/" ++ name

-- strings.NewReplacer of single runes.
abbrev replaced : ℕ → ℕ
replaced c = if c == b'.' || c == b' ' || c == b':' || c == b'/' then b'-' else c

unfoldable pub sanitize_prefix_list_name : Str → Str
sanitize_prefix_list_name = map replaced

-- sort.Slice by `Seq`. Its order of equal keys is open; where the keys differ, as validation demands
-- of the arguments, every sort gives this list.
unfoldable pub insert_by_seq : PrefixListEntry → List PrefixListEntry → List PrefixListEntry
insert_by_seq e [] = e ∷ []
insert_by_seq e (x ∷ xs) =
    let rest = insert_by_seq e xs in if ltb_ℤ x.seq e.seq then x ∷ rest else e ∷ x ∷ xs

unfoldable pub sort_by_seq : List PrefixListEntry → List PrefixListEntry
unfolding insert_by_seq
sort_by_seq [] = []
sort_by_seq (e ∷ rest) = insert_by_seq e (sort_by_seq rest)

-- What stands behind the prefix.
abbrev pub bounds : Option ℤ → Option ℤ → Option ℤ → List Str
bounds (some eq) ge le = codes "eq" ∷ itoa eq ∷ []
bounds none (some ge) (some le) = codes "ge" ∷ itoa ge ∷ codes "le" ∷ itoa le ∷ []
bounds none (some ge) none = codes "ge" ∷ itoa ge ∷ []
bounds none none (some le) = codes "le" ∷ itoa le ∷ []
bounds none none none = []

abbrev pub entry_words : PrefixListEntry → List Str
entry_words e = codes "seq" ∷ itoa e.seq ∷ e.action ∷ e.prefix ∷ bounds e.eq e.ge e.le

unfoldable pub prefix_list_entry_cmd : Str → PrefixListEntry → Str
unfolding join
prefix_list_entry_cmd name e =
    join (codes "ip" ∷ codes "prefix-list" ∷ name ∷ entry_words e) (codes " ")

abbrev pub remark_cmd : Str → Option Str → List Str
remark_cmd name o = elim (set_text o) [
  | none ↦ []
  | some s ↦ (codes "ip prefix-list " ++ (name ++ (codes " remark " ++ s))) ∷ []
]

unfoldable pub build_prefix_list_cmds : PrefixListArgs → Bool → List Str
unfolding str_eq sort_by_seq prefix_list_entry_cmd
build_prefix_list_cmds a remove =
    if remove
    then (codes "no ip prefix-list " ++ a.name) ∷ []
    else (codes "no ip prefix-list " ++ a.name)
      ∷ (remark_cmd a.name a.remark ++ map (prefix_list_entry_cmd a.name) (sort_by_seq a.entries))

module _ (g : Goeapi) (std : Std) (cfg : Config) where
  unfoldable pub apply_prefix_list : PrefixListArgs → Bool → Op g (Unit {0})
  unfolding apply_with build_prefix_list_cmds sanitize_prefix_list_name
  apply_prefix_list a remove =
      apply_with g std cfg a.access (codes "pfxlist-" ++ sanitize_prefix_list_name a.name)
        (build_prefix_list_cmds a remove)

  unfoldable pub create : PrefixListArgs → Bool → Op g (CreateResponse PrefixListArgs)
  unfolding submit_with validate_prefix_list prefix_list_id apply_prefix_list
  create a dry_run =
      submit_with g (validate_prefix_list a) dry_run
        (record { id = prefix_list_id a.name; output = a }) (codes "create prefix-list %s: %w")
        (text a.name ∷ []) (apply_prefix_list a false)

  unfoldable pub update : PrefixListArgs → Bool → Op g PrefixListArgs
  unfolding submit_with validate_prefix_list apply_prefix_list
  update a dry_run =
      submit_with g (validate_prefix_list a) dry_run a (codes "update prefix-list %s: %w")
        (text a.name ∷ []) (apply_prefix_list a false)

  unfoldable pub delete : PrefixListArgs → Op g (Unit {0})
  unfolding delete_with apply_prefix_list
  delete a =
      delete_with g (codes "delete prefix-list %s: %w") (text a.name ∷ [])
        (apply_prefix_list a true)
