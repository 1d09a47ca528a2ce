-- ===== src/L2/Interface/Lines.antt =====
-- How `parseInterfaceConfig` reads the lines that `buildInterfaceCmds` writes, one lemma for each.
use pulumi_eos.Base.{ℕ, false, List, [], ◌∷◌, ◌++◌, ◌≡◌, refl, ap, ◌∙◌, ℤ}
use pulumi_eos.Text.{Str, codes, fields, is_space, join, trim_space, trim_right}
use pulumi_eos.Text.Decimal.{itoa, IsInt, atoi-itoa, itoa-ne-nil}
use pulumi_eos.Text.Laws.{trim_right-NoSpace, trim_right-end, trim_space-indent}
use pulumi_eos.Text.Split.{IsWord, fields-join}
use pulumi_eos.Eapi.Staying.{itoa-NoSpace, is_keyword, is_keyword-IsWord}
use pulumi_eos.L2.Switchport.{taken_or}
use pulumi_eos.L2.Interface.Parse.{InterfaceRow, parse_line, parse_lines, channel_group_words}

-- A line of a block, as the configuration shows it.
abbrev pub indent : Str → Str
indent l = codes "   " ++ l

module _ (row : InterfaceRow) where
  pub line-description :
      (s : Str) → parse_line (codes "description " ++ s) row ≡ record row { description = s }
  unfolding parse_line
  line-description s = refl

  pub line-mtu :
      (v : ℤ) → IsInt v → parse_line (codes "mtu " ++ itoa v) row ≡ record row { mtu = v }
  unfolding parse_line
  line-mtu v h = ap (λ o. record row { mtu = taken_or row.mtu o }) (atoi-itoa v h)

  pub line-access :
      (v : ℤ)
      → IsInt v
      → parse_line (codes "switchport access vlan " ++ itoa v) row
        ≡ record row { switchport = record row.switchport { access_vlan = v } }
  unfolding parse_line
  line-access v h =
      ap
        (λ o. record row {
          switchport = record row.switchport {
            access_vlan = taken_or row.switchport.access_vlan o;
          };
        })
        (atoi-itoa v h)

  pub line-native :
      (v : ℤ)
      → IsInt v
      → parse_line (codes "switchport trunk native vlan " ++ itoa v) row
        ≡ record row { switchport = record row.switchport { trunk_native_vlan = v } }
  unfolding parse_line
  line-native v h =
      ap
        (λ o. record row {
          switchport = record row.switchport {
            trunk_native_vlan = taken_or row.switchport.trunk_native_vlan o;
          };
        })
        (atoi-itoa v h)

  pub line-allowed :
      (s : Str)
      → parse_line (codes "switchport trunk allowed vlan " ++ s) row
        ≡ record row { switchport = record row.switchport { trunk_allowed_vlans = s } }
  unfolding parse_line
  line-allowed s = refl

  pub line-interface : (s : Str) → parse_line (codes "interface " ++ s) row ≡ row
  unfolding parse_line
  line-interface s = refl

  words-group :
      (id : ℤ) (m : Str)
      → IsWord m
      → fields (codes "channel-group " ++ (itoa id ++ (codes " mode " ++ m)))
        ≡ codes "channel-group" ∷ itoa id ∷ codes "mode" ∷ m ∷ []
  unfolding join is_keyword
  words-group id m h =
      fields-join (codes "channel-group" ∷ itoa id ∷ codes "mode" ∷ m ∷ []) (λ e. cc)
        (
          (is_keyword-IsWord (codes "channel-group") refl).0,
          ((itoa-ne-nil id, itoa-NoSpace id), ((is_keyword-IsWord (codes "mode") refl).0, (h, tt))),
        )

  pub line-group :
      (id : ℤ) (m : Str)
      → IsInt id
      → IsWord m
      → parse_line (codes "channel-group " ++ (itoa id ++ (codes " mode " ++ m))) row
        ≡ record row { channel_group_id = id; channel_group_mode = m }
  unfolding parse_line
  line-group id m h w =
      ap (λ l. channel_group_words l row) (words-group id m w)
      ∙ ap
          (λ o. record row {
            channel_group_id = taken_or row.channel_group_id o;
            channel_group_mode = m;
          })
          (atoi-itoa id h)

-- One line of a block that starts and ends with no blank.
pub parse_lines-indent :
    (c : ℕ) (s : Str) (ls : List Str) (row row' : InterfaceRow)
    → is_space c ≡ false
    → trim_right (c ∷ s) ≡ c ∷ s
    → parse_line (c ∷ s) row ≡ row'
    → parse_lines (indent (c ∷ s) ∷ ls) row ≡ parse_lines ls row'
unfolding parse_lines
parse_lines-indent c s ls row row' hc hs e =
    ap (λ l. parse_lines ls (parse_line l row)) (trim_space-indent c s hc hs)
    ∙ ap (parse_lines ls) e

pub parse_lines-append :
    (a b : List Str) (row : InterfaceRow)
    → parse_lines (a ++ b) row ≡ parse_lines b (parse_lines a row)
unfolding parse_lines
parse_lines-append [] b row = refl
parse_lines-append (l ∷ a) b row = parse_lines-append a b (parse_line (trim_space l) row)

pub trim_right-itoa : (w : Str) (v : ℤ) → trim_right (w ++ itoa v) ≡ w ++ itoa v
trim_right-itoa w v =
    trim_right-end w (itoa v) (itoa-ne-nil v) (trim_right-NoSpace (itoa v) (itoa-NoSpace v))

pub trim_right-word : (w s : Str) → IsWord s → trim_right (w ++ s) ≡ w ++ s
trim_right-word w s h = trim_right-end w s h.0 (trim_right-NoSpace s h.1)
