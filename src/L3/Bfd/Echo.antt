-- ===== src/L3/Bfd/Echo.antt =====
-- `parseBfdSection` on the commands of `buildBfdCmds`.
use pulumi_eos.Base.{
  true, false, List, [], ◌∷◌, ◌++◌, Option, none, some, ◌≡◌, refl, ap, ◌∙◌, All, ℤ, pos, ◌≤ℤ◌,
  ltb_ℤ, Bool, ◌||◌, arith,
}
use pulumi_eos.Text.{Str, codes, str_eq, cut_prefix, trim_space, trim_right, is_space, join}
use pulumi_eos.Text.Decimal.{itoa, atoi, IsInt, atoi-itoa}
use pulumi_eos.Text.Laws.{trim_space-visible}
use pulumi_eos.Text.Split.{IsWord, fields-join}
use pulumi_eos.Commands.{number_cmd, is_on}
use pulumi_eos.Eapi.Staying.{is_keyword, is_keyword-IsWord}
use pulumi_eos.L2.Interface.{shutdown_cmd}
use pulumi_eos.L2.Interface.Lines.{trim_right-word}
use pulumi_eos.L2.Switchport.{taken_or}
use pulumi_eos.L2.Switchport.Laws.{IfSet}
use pulumi_eos.L3.PrefixList.Echo.{itoa-IsWord}
use pulumi_eos.L3.PrefixList.Lines.{trim_right-join}
use pulumi_eos.L3.ResilientEcmp.Numbers.{not_number}
use pulumi_eos.L3.Listing.{over_lines, over_lines-append}
use pulumi_eos.L3.Bfd.{
  BfdArgs, BfdRow, timers, timers_cmd, bfd_lines, build_bfd_cmds, set_timers, complete,
  parse_bfd_timer_line, parse_bfd_line, no_row,
}

abbrev words_behind : ℤ → ℤ → ℤ → List Str
words_behind i m k =
    itoa i ∷ codes "min-rx" ∷ itoa m ∷ codes "multiplier" ∷ itoa k ∷ codes "default" ∷ []

abbrev pub words_of : ℤ → ℤ → ℤ → List Str
words_of i m k = codes "interval" ∷ words_behind i m k

pub words_of-IsWord : (i m k : ℤ) → All IsWord (words_of i m k)
unfolding is_keyword
words_of-IsWord i m k = (
  (is_keyword-IsWord (codes "interval") refl).0,
  (
    itoa-IsWord i,
    (
      (is_keyword-IsWord (codes "min-rx") refl).0,
      (
        itoa-IsWord m,
        (
          (is_keyword-IsWord (codes "multiplier") refl).0,
          (itoa-IsWord k, ((is_keyword-IsWord (codes "default") refl).0, tt)),
        ),
      ),
    ),
  ),
)

abbrev line_of : ℤ → ℤ → ℤ → Str
line_of i m k = join (words_of i m k) (codes " ")

timers_cmd-line_of : (i m k : ℤ) → timers_cmd (some (i, m, k)) ≡ line_of i m k ∷ []
unfolding join
timers_cmd-line_of i m k = refl

trim_space-line_of : (i m k : ℤ) → trim_space (line_of i m k) ≡ line_of i m k
unfolding join is_space
trim_space-line_of i m k =
    trim_space-visible b'i' _ refl
      (trim_right-join (codes "interval") (words_behind i m k) (words_of-IsWord i m k))

module _ (i m k : ℤ) (hi : IsInt i) (hm : IsInt m) (hk : IsInt k) where
  set_timers-words_of :
      (row : BfdRow)
      → set_timers (words_of i m k) row ≡ record row { interval = i; min_rx = m; multiplier = k }
  unfolding set_timers str_eq atoi
  set_timers-words_of row =
      rw
        (
          atoi-itoa i hi,
          atoi-itoa m hm,
          atoi-itoa k hk,
          not_number i (codes "interval") hi refl,
          not_number i (codes "min-rx") hi refl,
          not_number i (codes "multiplier") hi refl,
          not_number m (codes "interval") hm refl,
          not_number m (codes "min-rx") hm refl,
          not_number m (codes "multiplier") hm refl,
          not_number k (codes "interval") hk refl,
          not_number k (codes "min-rx") hk refl,
          not_number k (codes "multiplier") hk refl,
        )
        refl

-- What the commands do to the row.
abbrev with_timers : Option (ℤ × ℤ × ℤ) → BfdRow → BfdRow
with_timers none row = row
with_timers (some (i, m, k)) row = record row {
  interval = i;
  min_rx = m;
  multiplier = k;
  has_timers = true;
}

abbrev with_slow : Option ℤ → BfdRow → BfdRow
with_slow none row = row
with_slow (some t) row = record row { slow_timer = t }

abbrev with_shutdown : Option Bool → BfdRow → BfdRow
with_shutdown o row = record row { shutdown = is_on o || row.shutdown }

-- Timers that are positive and fit Go's `int`.
abbrev pub AreTimers : ℤ × ℤ × ℤ → Type 0
AreTimers (i, m, k) =
    (IsInt i × (pos 1 ≤ℤ i)) × ((IsInt m × (pos 1 ≤ℤ m)) × (IsInt k × (pos 1 ≤ℤ k)))

positive : (z : ℤ) → pos 1 ≤ℤ z → ltb_ℤ (pos 0) z ≡ true
positive z h = ground arith

parse-line_of :
    (i m k : ℤ) (row : BfdRow)
    → AreTimers (i, m, k)
    → parse_bfd_line (line_of i m k) row ≡ with_timers (some (i, m, k)) row
unfolding parse_bfd_line parse_bfd_timer_line str_eq cut_prefix join
parse-line_of i m k row ((hi, pi), ((hm, pm), (hk, pk))) =
    ap (λ ws. complete (set_timers ws row))
      (fields-join (words_of i m k) (λ x. cc) (words_of-IsWord i m k))
    ∙ ap complete (set_timers-words_of i m k hi hm hk row)
    ∙ rw (positive i pi, positive m pm, positive k pk) refl

over-timers_cmd :
    (o : Option (ℤ × ℤ × ℤ)) (row : BfdRow)
    → IfSet AreTimers o
    → over_lines parse_bfd_line (timers_cmd o) row ≡ with_timers o row
unfolding over_lines
over-timers_cmd none row h = refl
over-timers_cmd (some (i, m, k)) row h =
    ap (λ ls. over_lines parse_bfd_line ls row) (timers_cmd-line_of i m k)
    ∙ ap (λ l. parse_bfd_line l row) (trim_space-line_of i m k)
    ∙ parse-line_of i m k row h

over-slow :
    (o : Option ℤ) (row : BfdRow)
    → IfSet IsInt o
    → over_lines parse_bfd_line (number_cmd (codes "slow-timer ") o) row ≡ with_slow o row
unfolding over_lines parse_bfd_line str_eq cut_prefix is_space
over-slow none row h = refl
over-slow (some t) row h =
    ap (λ l. parse_bfd_line l row)
      (trim_space-visible b's' (codes "low-timer " ++ itoa t) refl
        (trim_right-word (codes "slow-timer ") (itoa t) (itoa-IsWord t)))
    ∙ ap (λ o. record row { slow_timer = taken_or row.slow_timer o }) (atoi-itoa t h)

over-shutdown_cmd :
    (o : Option Bool) (row : BfdRow)
    → over_lines parse_bfd_line (shutdown_cmd o) row ≡ with_shutdown o row
unfolding over_lines parse_bfd_line str_eq cut_prefix trim_space trim_right is_space
over-shutdown_cmd none row = refl
over-shutdown_cmd (some true) row = refl
over-shutdown_cmd (some false) row = refl

over-ends :
    (row : BfdRow)
    → (over_lines parse_bfd_line (codes "router bfd" ∷ []) row ≡ row)
      × (over_lines parse_bfd_line (codes "exit" ∷ []) row ≡ row)
unfolding over_lines parse_bfd_line str_eq cut_prefix trim_space trim_right is_space
over-ends row = (refl, refl)

-- The row of the whole block.
abbrev pub row_of : BfdArgs → BfdRow
row_of a = with_shutdown a.shutdown (with_slow a.slow_timer (with_timers (timers a) no_row))

over-bfd_lines :
    (a : BfdArgs)
    → IfSet AreTimers (timers a)
    → IfSet IsInt a.slow_timer
    → over_lines parse_bfd_line (bfd_lines a) no_row ≡ row_of a
over-bfd_lines a ht hs =
    let slow = number_cmd (codes "slow-timer ") a.slow_timer in
    over_lines-append parse_bfd_line (timers_cmd (timers a)) (slow ++ shutdown_cmd a.shutdown)
      no_row
    ∙ ap (over_lines parse_bfd_line (slow ++ shutdown_cmd a.shutdown))
        (over-timers_cmd (timers a) no_row ht)
    ∙ over_lines-append parse_bfd_line slow (shutdown_cmd a.shutdown)
        (with_timers (timers a) no_row)
    ∙ ap (over_lines parse_bfd_line (shutdown_cmd a.shutdown))
        (over-slow a.slow_timer (with_timers (timers a) no_row) hs)
    ∙ over-shutdown_cmd a.shutdown (with_slow a.slow_timer (with_timers (timers a) no_row))

pub over-build_bfd_cmds :
    (a : BfdArgs)
    → IfSet AreTimers (timers a)
    → IfSet IsInt a.slow_timer
    → over_lines parse_bfd_line (build_bfd_cmds a false) no_row ≡ row_of a
unfolding build_bfd_cmds
over-build_bfd_cmds a ht hs =
    over_lines-append parse_bfd_line (codes "router bfd" ∷ []) (bfd_lines a ++ codes "exit" ∷ [])
      no_row
    ∙ ap (over_lines parse_bfd_line (bfd_lines a ++ codes "exit" ∷ [])) (over-ends no_row).0
    ∙ over_lines-append parse_bfd_line (bfd_lines a) (codes "exit" ∷ []) no_row
    ∙ ap (over_lines parse_bfd_line (codes "exit" ∷ [])) (over-bfd_lines a ht hs)
    ∙ (over-ends (row_of a)).1
