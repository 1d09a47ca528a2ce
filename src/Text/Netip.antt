-- ===== src/Text/Netip.antt =====
-- netip.ParsePrefix, as far as the provider asks: whether the text is an IPv4 prefix, and its length.
use pulumi_eos.Base.{
  ℕ, ◌-◌, ◌*◌, ◌+◌, Bool, true, false, ◌&&◌, List, [], ◌∷◌, Option, none, some, leb, ◌==◌,
  if◌then◌else◌, ℤ, pos, negsuc, refl, ◌≡◌,
}
use pulumi_eos.Text.{Str, codes, split}
use pulumi_eos.Text.Decimal.{atoi}

-- The digits of an octet behind `val`: at most 255 at every step.
octet_tail : Str → ℕ → Bool
octet_tail [] val = true
octet_tail (c ∷ s) val =
    let next = val * 10 + (c - b'0') in
    leb b'0' c && leb c b'9' && leb next 255 && octet_tail s next

-- One or more digits, with no leading zero before another digit.
octet : Str → Bool
octet [] = false
octet (c ∷ []) = octet_tail (c ∷ []) 0
octet (c ∷ d ∷ s) = (if c == b'0' then false else true) && octet_tail (c ∷ d ∷ s) 0

four_octets : List Str → Bool
four_octets (a ∷ b ∷ c ∷ d ∷ []) = octet a && octet b && octet c && octet d
four_octets _ = false

-- A second digit needs a first one from 1 to 9; that also refuses a sign.
abbrev pub good_start : Str → Bool
good_start [] = true
good_start (c ∷ []) = true
good_start (c ∷ d ∷ s) = leb b'1' c && leb c b'9'

bits_in_range : Option ℤ → Option ℤ
bits_in_range none = none
bits_in_range (some (negsuc n)) = none
bits_in_range (some (pos n)) = if leb n 32 then some (pos n) else none

prefix_of : List Str → Option ℤ
prefix_of (addr ∷ bits ∷ []) =
    if four_octets (split addr b'.') && good_start bits then bits_in_range (atoi bits) else none
prefix_of _ = none

-- netip.ParseAddr, and that the address is an IPv4 one.
unfoldable pub parse_addr4 : Str → Bool
unfolding split four_octets octet octet_tail
parse_addr4 s = four_octets (split s b'.')

-- `Bits()` of an IPv4 prefix; `none` for an error and for any other family. An address holds no
-- slash, so the last slash is the only one.
unfoldable pub parse_prefix4 : Str → Option ℤ
unfolding prefix_of split atoi four_octets octet octet_tail bits_in_range
parse_prefix4 s = prefix_of (split s b'/')

parse_prefix4_values :
    (parse_prefix4 (codes "10.0.0.0/8") ≡ some (pos 8))
    × (parse_prefix4 (codes "0.0.0.0/0") ≡ some (pos 0))
    × (parse_prefix4 (codes "10.0.0.0/33") ≡ none)
    × (parse_prefix4 (codes "10.0.0/8") ≡ none)
    × (parse_prefix4 (codes "10.0.0.256/8") ≡ none)
    × (parse_prefix4 (codes "010.0.0.0/8") ≡ none)
    × (parse_prefix4 (codes "10.0.0.0/08") ≡ none)
    × (parse_prefix4 (codes "10.0.0.0/+8") ≡ none)
    × (parse_prefix4 (codes "2001:db8::/32") ≡ none)
unfolding parse_prefix4
parse_prefix4_values = (refl, refl, refl, refl, refl, refl, refl, refl, refl)
