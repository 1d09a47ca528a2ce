-- ===== src/L3/PrefixList/Laws.antt =====
-- What `validatePrefixList` accepts.
use pulumi_eos.Base.{
  Bool, true, false, not, ◌&&◌, ◌||◌, List, [], ◌∷◌, Option, none, some, ◌≡◌, ◌≢◌, ◌↔◌, ◌⊎◌, refl,
  sym, arith, ℤ, pos, ◌≤ℤ◌, ltb_ℤ, eqb_ℤ_iff, All,
}
use mathlib.Core.Path.{subst}
use mathlib.Core.Option.{some-injective}
use pulumi_eos.Text.{Str, codes, str_eq, trim_space}
use pulumi_eos.Text.Laws.{str_eq_iff}
use pulumi_eos.Text.Netip.{parse_prefix4}
use pulumi_eos.Errors.{Result, ◌>>=◌, ◌>>◌, number}
use pulumi_eos.Errors.Laws.{Passes, both_iff, refuse_iff, wrap_err_iff}
use pulumi_eos.L2.Switchport.Laws.{IfSet}
use pulumi_eos.L3.PrefixList.{
  PrefixListEntry, PrefixListArgs, known_action, is_set, check_mask, check_order, check_ge,
  bits_result, validate_prefix_list_entry, validate_entries, seen_before, is_empty,
  validate_prefix_list,
}

abbrev pub IsMask : ℤ → Type 0
IsMask m = (pos 1 ≤ℤ m) × (m ≤ℤ pos 32)

abbrev pub IsAction : Str → Type 0
IsAction a = (a ≡ codes "permit") ⊎ (a ≡ codes "deny")

-- No `eq` beside a `ge` or `le`; each of them in 1..32; `ge` at most `le` and at least the length of
-- the prefix.
abbrev pub AreBounds : PrefixListEntry → ℤ → Type 0
AreBounds e bits =
    (is_set e.eq ≡ true → (is_set e.ge ≡ false) × (is_set e.le ≡ false))
    × (IfSet IsMask e.eq
        × (IfSet IsMask e.ge
            × (IfSet IsMask e.le
                × (IfSet (λ ge. IfSet (λ le. ge ≤ℤ le) e.le) e.ge
                    × IfSet (λ ge. bits ≤ℤ ge) e.ge))))

-- An entry: its number in 0..65535, an action, an IPv4 prefix, and bounds that fit.
abbrev pub IsEntry : PrefixListEntry → Type 0
IsEntry e =
    ((pos 0 ≤ℤ e.seq) × (e.seq ≤ℤ pos 65535))
    × (IsAction e.action × ((bits : ℤ) × ((parse_prefix4 e.prefix ≡ some bits) × AreBounds e bits)))

seq_iff :
    (n : ℤ) → ((ltb_ℤ n (pos 0) || ltb_ℤ (pos 65535) n) ≡ false) ↔ ((pos 0 ≤ℤ n) × (n ≤ℤ pos 65535))
seq_iff n = ground arith

known_action_iff : (a : Str) → (not (known_action a) ≡ false) ↔ IsAction a
known_action_iff a = ground (arith, str_eq_iff a (codes "permit"), str_eq_iff a (codes "deny"))

combo_iff : (a b c : Bool) → ((a && (b || c)) ≡ false) ↔ (a ≡ true → (b ≡ false) × (c ≡ false))
combo_iff a b c = ground arith

range_iff : (m : ℤ) → ((ltb_ℤ m (pos 1) || ltb_ℤ (pos 32) m) ≡ false) ↔ IsMask m
range_iff m = ground arith

not_above_iff : (a b : ℤ) → (ltb_ℤ a b ≡ false) ↔ (b ≤ℤ a)
not_above_iff a b = ground arith

check_mask_iff : (o : Option ℤ) → Passes (check_mask o) ↔ IfSet IsMask o
check_mask_iff none = (λ _. tt, λ _. refl)
check_mask_iff (some m) = refuse_iff _ _ (range_iff m)

check_order_iff :
    (ge le : Option ℤ) → Passes (check_order ge le) ↔ IfSet (λ g. IfSet (λ l. g ≤ℤ l) le) ge
check_order_iff none le = (λ _. tt, λ _. refl)
check_order_iff (some g) none = (λ _. tt, λ _. refl)
check_order_iff (some g) (some l) = refuse_iff _ _ (not_above_iff l g)

check_ge_iff : (ge : Option ℤ) (bits : ℤ) → Passes (check_ge ge bits) ↔ IfSet (λ g. bits ≤ℤ g) ge
check_ge_iff none bits = (λ _. tt, λ _. refl)
check_ge_iff (some g) bits = refuse_iff _ _ (not_above_iff g bits)

-- A prefix that parses hands its length on.
bits_result_iff :
    {P : ℤ → Type 0} (p : Str) (k : ℤ → Result (Unit {0})) (o : Option ℤ)
    → ((bits : ℤ) → Passes (k bits) ↔ P bits)
    → Passes (bits_result p o >>= k) ↔ ((bits : ℤ) × ((o ≡ some bits) × P bits))
bits_result_iff p k none h = (λ x. cc, λ x. cc)
bits_result_iff {P} p k (some b) h = (
  λ x. (b, (refl, (h b).0 x)),
  λ (bits, (same, x)). (h b).1 (subst P (sym (some-injective b bits same)) x),
)

bounds_iff :
    (e : PrefixListEntry) (bits : ℤ)
    → Passes (
        check_mask e.eq
        >> (check_mask e.ge >> (check_mask e.le >> (check_order e.ge e.le >> check_ge e.ge bits))))
      ↔ (IfSet IsMask e.eq
          × (IfSet IsMask e.ge
              × (IfSet IsMask e.le
                  × (IfSet (λ ge. IfSet (λ le. ge ≤ℤ le) e.le) e.ge
                      × IfSet (λ ge. bits ≤ℤ ge) e.ge))))
bounds_iff e bits = both_iff _ _ (check_mask_iff e.eq) (
    both_iff _ _ (check_mask_iff e.ge) (
      both_iff _ _ (check_mask_iff e.le)
        (both_iff _ _ (check_order_iff e.ge e.le) (check_ge_iff e.ge bits))))

pub validate_prefix_list_entry_iff :
    (e : PrefixListEntry) → Passes (validate_prefix_list_entry e) ↔ IsEntry e
unfolding validate_prefix_list_entry
validate_prefix_list_entry_iff e = both_iff _ _ (refuse_iff _ _ (seq_iff e.seq)) (
    both_iff _ _ (refuse_iff _ _ (known_action_iff e.action)) (
      bits_result_iff e.prefix _ (parse_prefix4 e.prefix) (λ bits.
        both_iff _ _ (refuse_iff _ _ (combo_iff (is_set e.eq) (is_set e.ge) (is_set e.le)))
          (bounds_iff e bits))))

-- No two entries have the same number.
abbrev pub Distinct : List PrefixListEntry → Type 0
Distinct [] = Unit
Distinct (e ∷ es) = All (λ x. e.seq ≢ x.seq) es × Distinct es

abbrev Unseen : List ℤ → PrefixListEntry → Type 0
Unseen seen e = seen_before e.seq seen ≡ false

Unseen-cons :
    (n : ℤ) (seen : List ℤ) (e : PrefixListEntry)
    → Unseen (n ∷ seen) e ↔ ((n ≢ e.seq) × Unseen seen e)
unfolding seen_before
Unseen-cons n seen e = ground (arith, eqb_ℤ_iff n e.seq)

All-Unseen_cons :
    (n : ℤ) (seen : List ℤ) (es : List PrefixListEntry)
    → All (Unseen (n ∷ seen)) es ↔ (All (λ x. n ≢ x.seq) es × All (Unseen seen) es)
All-Unseen_cons n seen [] = (λ _. (tt, tt), λ _. tt)
All-Unseen_cons n seen (e ∷ es) =
    let c = Unseen-cons n seen e in
    let r = All-Unseen_cons n seen es in
    (
      λ (h, hs). let (a, b) = c.0 h in let (x, y) = r.0 hs in ((a, x), (b, y)),
      λ ((a, x), (b, y)). (c.1 (a, b), r.1 (x, y)),
    )

abbrev Entries : List ℤ → List PrefixListEntry → Type 0
Entries seen es = All IsEntry es × (All (Unseen seen) es × Distinct es)

validate_entries_iff :
    (seen : List ℤ) (es : List PrefixListEntry)
    → Passes (validate_entries seen es) ↔ Entries seen es
unfolding validate_entries
validate_entries_iff seen [] = (λ _. (tt, (tt, tt)), λ _. refl)
validate_entries_iff seen (e ∷ es) =
    let valid =
      wrap_err_iff (codes "entry %d: %w") (number e.seq ∷ []) (validate_prefix_list_entry e) in
    let entry = validate_prefix_list_entry_iff e in
    let cons = All-Unseen_cons e.seq seen es in
    let n =
      both_iff _ _ (λ h. entry.0 (valid.0 h), λ h. valid.1 (entry.1 h))
        (both_iff _ _ (refuse_iff (seen_before e.seq seen) _ (λ h. h, λ h. h))
          (validate_entries_iff (e.seq ∷ seen) es)) in
    (
      λ h. let (a, (b, (c, (u, d)))) = n.0 h in let (x, y) = cons.0 u in ((a, c), ((b, y), (x, d))),
      λ ((a, c), ((b, y), (x, d))). n.1 (a, (b, (c, (cons.1 (x, y), d)))),
    )

All-Unseen_nil : (es : List PrefixListEntry) → All (Unseen []) es
unfolding seen_before
All-Unseen_nil [] = tt
All-Unseen_nil (e ∷ es) = (refl, All-Unseen_nil es)

named_iff : (n : Str) → (str_eq n [] ≡ false) ↔ (n ≢ [])
named_iff n = ground (arith, str_eq_iff n [])

is_empty_iff : (es : List PrefixListEntry) → (is_empty es ≡ false) ↔ (es ≢ [])
is_empty_iff [] = (λ h. cc, λ h. absurd (h refl))
is_empty_iff (e ∷ es) = (λ h. λ x. cc, λ h. refl)

-- A prefix list is accepted exactly when its name is more than blanks, it has entries, each of them
-- is valid, and no two of them have the same number.
pub validate_prefix_list_iff :
    (a : PrefixListArgs)
    → Passes (validate_prefix_list a) ↔ (
        (trim_space a.name ≢ [])
        × ((a.entries ≢ []) × (All IsEntry a.entries × Distinct a.entries)))
unfolding validate_prefix_list
validate_prefix_list_iff a =
    let n = both_iff _ _ (refuse_iff _ _ (named_iff (trim_space a.name))) (
      both_iff _ _ (refuse_iff _ _ (is_empty_iff a.entries)) (validate_entries_iff [] a.entries)) in
    (
      λ h. let (x, (y, (z, (_, d)))) = n.0 h in (x, (y, (z, d))),
      λ (x, (y, (z, d))). n.1 (x, (y, (z, (All-Unseen_nil a.entries, d)))),
    )
