-- ===== src/L3/PrefixList/Order.antt =====
-- The order in which the entries of a prefix list are sent: each of them once, by ascending `seq`.
use pulumi_eos.Base.{
  map, ◌++◌, true, false, List, [], ◌∷◌, ◌≡◌, refl, arith, ap, ◌∙◌, ℤ, ◌≤ℤ◌, ltb_ℤ, Bool-cases, inl,
  inr, All,
}
use mathlib.Core.List.{Permᴰ}
use mathlib.Core.List.Permᴰ
use pulumi_eos.Text.{codes}
use pulumi_eos.L3.PrefixList.{
  PrefixListEntry, PrefixListArgs, insert_by_seq, sort_by_seq, build_prefix_list_cmds, remark_cmd,
  prefix_list_entry_cmd,
}

abbrev pub Below : ℤ → List PrefixListEntry → Type 0
Below n = All (λ y. n ≤ℤ y.seq)

abbrev pub Ascending : List PrefixListEntry → Type 0
Ascending [] = Unit
Ascending (e ∷ es) = Below e.seq es × Ascending es

insert_by_seq-Permᴰ :
    (e : PrefixListEntry) (es : List PrefixListEntry) → Permᴰ (e ∷ es) (insert_by_seq e es)
unfolding insert_by_seq
insert_by_seq-Permᴰ e [] = Permᴰ.refl (e ∷ [])
insert_by_seq-Permᴰ e (x ∷ xs) = elim (Bool-cases (ltb_ℤ x.seq e.seq)) [
  | inl h ↦ rw h (Permᴰ.trans (Permᴰ.swap refl refl) (Permᴰ.cons refl (insert_by_seq-Permᴰ e xs)))
  | inr h ↦ rw h (Permᴰ.refl (e ∷ x ∷ xs))
]

sort_by_seq-Permᴰ : (es : List PrefixListEntry) → Permᴰ es (sort_by_seq es)
unfolding sort_by_seq
sort_by_seq-Permᴰ [] = Permᴰ.nil
sort_by_seq-Permᴰ (e ∷ es) =
    Permᴰ.trans (Permᴰ.cons refl (sort_by_seq-Permᴰ es)) (insert_by_seq-Permᴰ e (sort_by_seq es))

Below-insert_by_seq :
    (n : ℤ) (e : PrefixListEntry) (es : List PrefixListEntry)
    → n ≤ℤ e.seq
    → Below n es
    → Below n (insert_by_seq e es)
unfolding insert_by_seq
Below-insert_by_seq n e [] h hs = (h, tt)
Below-insert_by_seq n e (x ∷ xs) h (hx, hs) = elim (Bool-cases (ltb_ℤ x.seq e.seq)) [
  | inl b ↦ rw b (hx, Below-insert_by_seq n e xs h hs)
  | inr b ↦ rw b (h, (hx, hs))
]

≤ℤ-trans : (a b c : ℤ) → a ≤ℤ b → b ≤ℤ c → a ≤ℤ c
≤ℤ-trans a b c h k = ground arith

ltb-≤ℤ : (a b : ℤ) → ltb_ℤ a b ≡ true → a ≤ℤ b
ltb-≤ℤ a b h = ground arith

not_ltb-≤ℤ : (a b : ℤ) → ltb_ℤ a b ≡ false → b ≤ℤ a
not_ltb-≤ℤ a b h = ground arith

Below-trans : (m n : ℤ) (es : List PrefixListEntry) → m ≤ℤ n → Below n es → Below m es
Below-trans m n [] h hs = tt
Below-trans m n (x ∷ xs) h (hx, hs) = (≤ℤ-trans m n x.seq h hx, Below-trans m n xs h hs)

insert_by_seq-Ascending :
    (e : PrefixListEntry) (es : List PrefixListEntry)
    → Ascending es
    → Ascending (insert_by_seq e es)
unfolding insert_by_seq
insert_by_seq-Ascending e [] h = (tt, tt)
insert_by_seq-Ascending e (x ∷ xs) (hx, h) = elim (Bool-cases (ltb_ℤ x.seq e.seq)) [
  | inl b ↦
      rw b
        (Below-insert_by_seq x.seq e xs (ltb-≤ℤ x.seq e.seq b) hx, insert_by_seq-Ascending e xs h)
  | inr b ↦
      let le = not_ltb-≤ℤ x.seq e.seq b in rw b ((le, Below-trans e.seq x.seq xs le hx), (hx, h))
]

pub sort_by_seq_sorts :
    (es : List PrefixListEntry) → Ascending (sort_by_seq es) × Permᴰ es (sort_by_seq es)
unfolding sort_by_seq
sort_by_seq_sorts [] = (tt, Permᴰ.nil)
sort_by_seq_sorts (e ∷ es) = (
  insert_by_seq-Ascending e (sort_by_seq es) (sort_by_seq_sorts es).0,
  sort_by_seq-Permᴰ (e ∷ es),
)

insert_by_seq-first :
    (e x : PrefixListEntry) (xs : List PrefixListEntry)
    → e.seq ≤ℤ x.seq
    → insert_by_seq e (x ∷ xs) ≡ e ∷ x ∷ xs
unfolding insert_by_seq
insert_by_seq-first e x xs h = ground arith

-- A list in order is left as it is.
pub sort_by_seq-Ascending : (es : List PrefixListEntry) → Ascending es → sort_by_seq es ≡ es
unfolding sort_by_seq insert_by_seq
sort_by_seq-Ascending [] h = refl
sort_by_seq-Ascending (e ∷ []) h = refl
sort_by_seq-Ascending (e ∷ x ∷ xs) ((hx, _), h) =
    ap (insert_by_seq e) (sort_by_seq-Ascending (x ∷ xs) h) ∙ insert_by_seq-first e x xs hx

-- Sorting keeps what holds of every entry.
All-insert_by_seq :
    (P : PrefixListEntry → Type 0) (e : PrefixListEntry) (es : List PrefixListEntry)
    → P e
    → All P es
    → All P (insert_by_seq e es)
unfolding insert_by_seq
All-insert_by_seq P e [] h hs = (h, tt)
All-insert_by_seq P e (x ∷ xs) h (hx, hs) = elim (Bool-cases (ltb_ℤ x.seq e.seq)) [
  | inl b ↦ rw b (hx, All-insert_by_seq P e xs h hs)
  | inr b ↦ rw b (h, (hx, hs))
]

pub All-sort_by_seq :
    (P : PrefixListEntry → Type 0) (es : List PrefixListEntry) → All P es → All P (sort_by_seq es)
unfolding sort_by_seq
All-sort_by_seq P [] h = tt
All-sort_by_seq P (e ∷ es) (h, hs) =
    All-insert_by_seq P e (sort_by_seq es) h (All-sort_by_seq P es hs)

-- Create and Update send the command that removes the old list, the remark if there is one, and then
-- one command for each entry, each entry once and by ascending sequence number.
pub build_prefix_list_cmds-Ascending :
    (a : PrefixListArgs)
    → (es : List PrefixListEntry) × (Ascending es
        × (Permᴰ a.entries es
            × (build_prefix_list_cmds a false
                ≡ (codes "no ip prefix-list " ++ a.name)
                  ∷ (remark_cmd a.name a.remark ++ map (prefix_list_entry_cmd a.name) es))))
unfolding build_prefix_list_cmds
build_prefix_list_cmds-Ascending a =
    let (ascending, same) = sort_by_seq_sorts a.entries in
    (sort_by_seq a.entries, (ascending, (same, refl)))
