-- ===== src/Text/Netip6.antt =====
-- netip.ParseAddr and netip.ParsePrefix on IPv6 texts, as far as the provider asks: whether the text
-- is a prefix of that family, and whether its address is a mapped IPv4 one.
use pulumi_eos.Base.{
  ℕ, ◌-◌, ◌*◌, ◌+◌, Bool, true, false, ◌&&◌, ◌||◌, not, List, [], ◌∷◌, Option, none, some, leb, ltb,
  suc, zero, ◌==◌, if◌then◌else◌, ℤ, pos, negsuc, refl, ◌≡◌, length,
}
use pulumi_eos.Text.{Str, codes, split, cut_prefix}
use pulumi_eos.Text.Decimal.{atoi}
use pulumi_eos.Text.Netip.{parse_addr4, good_start}

-- The value of a hexadecimal digit.
abbrev hex_digit : ℕ → Option ℕ
hex_digit c =
    if leb b'0' c && leb c b'9'
    then some (c - b'0')
    else if leb b'a' c && leb c b'f'
    then some (c - b'a' + 10)
    else if leb b'A' c && leb c b'F'
    then some (c - b'A' + 10)
    else none

-- A group: its number of digits, its value, and the text behind it. More than four digits are refused.
pub record Group : Type 0 where
  pub digits : ℕ
  pub value : ℕ
  pub rest : Str

hex_group : Str → ℕ → ℕ → Option Group
hex_group [] n acc = some (record { digits = n; value = acc; rest = [] })
hex_group (c ∷ s) n acc = elim (hex_digit c) [
  | none ↦ some (record { digits = n; value = acc; rest = c ∷ s })
  | some d ↦ if leb 4 n then none else hex_group s (n + 1) (acc * 16 + d)
]

-- What has been read: the groups, the last one first, and where `::` stands, counted from the front.
pub record Read6 : Type 0 where
  pub groups : List ℕ
  pub ellipsis : Option ℕ

abbrev no_ellipsis : Option ℕ → Bool
no_ellipsis none = true
no_ellipsis (some n) = false

-- How the loop goes on: it fails, it has read everything, or it goes on with a rest.
pub data Next : Type 0 where
  bad : Next
  finish : Read6 → Next
  go_on : Str → Read6 → Next

-- The bytes of an embedded IPv4 address make two groups. They are the last ones, so `Is4In6` does not
-- ask for their values.
tail4 : Str → Read6 → Next
unfolding parse_addr4
tail4 s r =
    if (no_ellipsis r.ellipsis && not (length r.groups == 6)) || ltb 6 (length r.groups)
    then Next.bad
    else if parse_addr4 s
    then Next.finish (record r { groups = 0 ∷ 0 ∷ r.groups })
    else Next.bad

-- `::`, which may stand once.
second_colon : Str → Read6 → Next
second_colon t r =
    if no_ellipsis r.ellipsis
    then elim t [
      | [] ↦ Next.finish (record r { ellipsis = some (length r.groups) })
      | ◌∷◌ c u ↦ Next.go_on (c ∷ u) (record r { ellipsis = some (length r.groups) })
    ]
    else Next.bad

-- What stands behind a group.
behind_group : Str → Read6 → Next
behind_group [] r = Next.finish r
behind_group (c ∷ []) r = Next.bad
behind_group (c ∷ d ∷ t) r =
    if c == b':' then if d == b':' then second_colon t r else Next.go_on (d ∷ t) r else Next.bad

starts_with_dot : Str → Bool
starts_with_dot [] = false
starts_with_dot (c ∷ s) = c == b'.'

-- One round of the loop on `s`, whose first group has been read.
on_group : Str → Option Group → Read6 → Next
unfolding tail4 behind_group second_colon starts_with_dot
on_group s none r = Next.bad
on_group s (some g) r =
    if g.digits == 0
    then Next.bad
    else if starts_with_dot g.rest
    then tail4 s r
    else behind_group g.rest (record r { groups = g.value ∷ r.groups })

-- The loop `for i < 16`, two bytes a round, on the number of groups that are still free.
read_groups : ℕ → Str → Read6 → Option Read6
unfolding on_group hex_group
read_groups zero [] r = some r
read_groups zero (c ∷ s) r = none
read_groups (suc n) s r = elim (on_group s (hex_group s 0 0) r) [
  | bad ↦ none
  | finish r' ↦ some r'
  | go_on t r' ↦ read_groups n t r'
]

-- Eight groups without `::`, or fewer with it.
complete : Read6 → Bool
complete r =
    if ltb (length r.groups) 8 then not (no_ellipsis r.ellipsis) else no_ellipsis r.ellipsis

abbrev checked : Option Read6 → Option Read6
checked none = none
checked (some r) = if complete r then some r else none

abbrev start : Read6
start = record { groups = []; ellipsis = none }

behind_ellipsis : Str → Option Read6
unfolding read_groups complete
behind_ellipsis [] = some (record { groups = []; ellipsis = some 0 })
behind_ellipsis (c ∷ s) =
    checked (read_groups 8 (c ∷ s) (record { groups = []; ellipsis = some 0 }))

-- netip.ParseAddr for a text whose address is an IPv6 one without a zone, which a prefix may not have.
parse_addr6 : Str → Option Read6
unfolding read_groups complete behind_ellipsis cut_prefix
parse_addr6 s = elim (cut_prefix s (codes "::")) [
  | some rest ↦ behind_ellipsis rest
  | none ↦ checked (read_groups 8 s start)
]

zeros : ℕ → List ℕ → List ℕ
zeros zero ws = ws
zeros (suc n) ws = 0 ∷ zeros n ws

put_all : List ℕ → List ℕ → List ℕ
put_all [] ws = ws
put_all (g ∷ gs) ws = put_all gs (g ∷ ws)

-- The groups from the first on, with the zeros of `::` before the last `back` of them.
expanded : List ℕ → ℕ → ℕ → List ℕ → List ℕ
unfolding zeros put_all
expanded gs zero gap acc = put_all gs (zeros gap acc)
expanded [] (suc back) gap acc = zeros gap acc
expanded (g ∷ gs) (suc back) gap acc = expanded gs back gap (g ∷ acc)

all_groups : Read6 → List ℕ
unfolding expanded
all_groups r = elim r.ellipsis [
  | none ↦ put_all r.groups []
  | some n ↦ expanded r.groups (length r.groups - n) (8 - length r.groups) []
]

-- `Is4In6()`: ten bytes of zeros and two of 255.
is_4in6 : List ℕ → Bool
is_4in6 (a ∷ b ∷ c ∷ d ∷ e ∷ f ∷ rest) =
    a == 0 && b == 0 && c == 0 && d == 0 && e == 0 && f == 65535
is_4in6 gs = false

-- An address's text has no slash, so the last slash of a prefix is its only one.
good_bits : Option ℤ → Bool
good_bits none = false
good_bits (some (negsuc n)) = false
good_bits (some (pos n)) = leb n 128

prefix6_of : List Str → Option Read6
unfolding parse_addr6 good_bits atoi
prefix6_of (addr ∷ bits ∷ []) =
    if good_start bits && good_bits (atoi bits) then parse_addr6 addr else none
prefix6_of _ = none

-- `pfx.Addr().Is6()` and not `Is4In6()`, for a text that parses.
abbrev no_mapped : Option Read6 → Bool
no_mapped none = false
no_mapped (some r) = not (is_4in6 (all_groups r))

unfoldable pub is_prefix6 : Str → Bool
unfolding split prefix6_of all_groups is_4in6
is_prefix6 s = no_mapped (prefix6_of (split s b'/'))

-- netip.ParsePrefix: the text is a prefix whose address is an IPv6 one, mapped or not.
abbrev is_some : Option Read6 → Bool
is_some none = false
is_some (some r) = true

unfoldable pub parses_prefix6 : Str → Bool
unfolding split prefix6_of
parses_prefix6 s = is_some (prefix6_of (split s b'/'))

is_prefix6_values :
    (is_prefix6 (codes "fc00::1/128") ≡ true)
    × (is_prefix6 (codes "::/0") ≡ true)
    × (is_prefix6 (codes "2001:db8:0:1:2:3:4:5/64") ≡ true)
    × (is_prefix6 (codes "2001:db8::/129") ≡ false)
    × (is_prefix6 (codes "2001:db8::1::/64") ≡ false)
    × (is_prefix6 (codes "1:2:3:4:5:6:7:8::/64") ≡ false)
    × (is_prefix6 (codes "12345::/64") ≡ false)
    × (is_prefix6 (codes "::ffff:10.0.0.1/128") ≡ false)
    × (parses_prefix6 (codes "::ffff:10.0.0.1/128") ≡ true)
    × (is_prefix6 (codes "fe80::1%eth0/64") ≡ false)
    × (is_prefix6 (codes "10.0.0.1/32") ≡ false)
unfolding is_prefix6 parses_prefix6
is_prefix6_values = (refl, refl, refl, refl, refl, refl, refl, refl, refl, refl, refl)
