-- ===== src/Eapi/Staying.antt =====
-- Commands that stay in a session: a keyword, a blank and one more line of text.
use pulumi_eos.Base.{
  Bool, true, false, List, [], ◌∷◌, ◌++◌, Option, none, some, ◌≡◌, refl, ap, ap₂, ◌∙◌, ◌||◌, ◌&&◌,
  not, append_assoc, ℤ, All-append, arith, All,
}
use pulumi_eos.Text.{Str, codes, str_eq, is_space, fields, words, non_empty}
use pulumi_eos.Text.Decimal.{itoa, IsPlain, itoa-IsPlain, cons-ne-nil}
use pulumi_eos.Text.Split.{Lacks, IsWord, IsWord-append, words-append}
use pulumi_eos.Text.Laws.{NoSpace}
use pulumi_eos.Commands.{text_cmd}
use pulumi_eos.Eapi.Modes.{
  Stays, has_newline, leaves_session, leaves_first, leaves_hard, Mode, and_then, after_words,
  after_line, stays_inside, IsInside,
}

abbrev pub OneLine : Str → Type 0
OneLine s = has_newline s ≡ false

abbrev pub OneLine? : Option Str → Type 0
OneLine? none = Unit
OneLine? (some s) = OneLine s

pub OneLine-append : (a b : Str) → OneLine a → OneLine b → OneLine (a ++ b)
unfolding has_newline
OneLine-append [] b ha hb = hb
OneLine-append (c ∷ a) b ha hb = ground (arith, OneLine-append a b)

pub IsPlain-OneLine : (s : Str) → All IsPlain s → OneLine s
unfolding has_newline
IsPlain-OneLine [] h = refl
IsPlain-OneLine (c ∷ s) (h, hs) = ground (arith, IsPlain-OneLine s hs)

pub IsPlain-NoSpace : (s : Str) → All IsPlain s → All NoSpace s
unfolding is_space
IsPlain-NoSpace [] h = tt
IsPlain-NoSpace (c ∷ s) (h, hs) = (ground arith, IsPlain-NoSpace s hs)

pub NoSpace-OneLine : (s : Str) → All NoSpace s → OneLine s
unfolding has_newline is_space
NoSpace-OneLine [] h = refl
NoSpace-OneLine (c ∷ s) (h, hs) = ground (arith, NoSpace-OneLine s hs)

non_empty-word : (w : Str) (l : List Str) → IsWord w → non_empty (w ∷ l) ≡ w ∷ non_empty l
unfolding non_empty
non_empty-word [] l h = absurd (h.0 refl)
non_empty-word (c ∷ w) l h = refl

pub fields-keyword : (w x : Str) → IsWord w → fields (w ++ b' ' ∷ x) ≡ w ∷ fields x
unfolding fields
fields-keyword w x h = ap non_empty (words-append w x h.1) ∙ non_empty-word w (words x) h

pub keyword-Stays :
    (w x : Str) → IsWord w → leaves_first (w ∷ []) ≡ false → OneLine x → Stays (w ++ b' ' ∷ x)
unfolding leaves_session
keyword-Stays w x h other line =
    ap₂ (λ a l. a || leaves_first l) (OneLine-append w (b' ' ∷ x) (NoSpace-OneLine w h.1) line)
      (fields-keyword w x h)
    ∙ other

visible : Str → Bool
visible [] = true
visible (c ∷ s) = not (is_space c) && visible s

not-and : (a b : Bool) → (not a && b) ≡ true → (a ≡ false) × (b ≡ true)
not-and a b h = ground arith

visible-NoSpace : (s : Str) → visible s ≡ true → All NoSpace s
unfolding visible
visible-NoSpace [] h = tt
visible-NoSpace (c ∷ s) h =
    let (hc, hs) = not-and (is_space c) (visible s) h in (hc, visible-NoSpace s hs)

-- A first word that keeps its line in the session.
unfoldable pub is_keyword : Str → Bool
unfolding visible is_space str_eq
is_keyword w = not (str_eq w []) && visible w && not (leaves_first (w ∷ []))

and_not : (a b : Bool) → (a && not b) ≡ true → (a ≡ true) × (b ≡ false)
and_not a b h = ground arith

pub is_keyword-IsWord : (w : Str) → is_keyword w ≡ true → IsWord w × (leaves_first (w ∷ []) ≡ false)
unfolding is_keyword
is_keyword-IsWord [] h = cc
is_keyword-IsWord (c ∷ w) h =
    let (hv, hl) = and_not (visible (c ∷ w)) (leaves_first ((c ∷ w) ∷ [])) h in
    ((cons-ne-nil c w, visible-NoSpace (c ∷ w) hv), hl)

pub command-Stays : (w x : Str) → is_keyword w ≡ true → OneLine x → Stays (w ++ b' ' ∷ x)
command-Stays w x k line =
    let (word, other) = is_keyword-IsWord w k in keyword-Stays w x word other line

-- Single lines hold no line break.
pub OneLine-Lacks : (s : Str) → OneLine s → Lacks b'\n' s
unfolding has_newline
OneLine-Lacks [] h = tt
OneLine-Lacks (c ∷ s) h = (ground arith, OneLine-Lacks s (ground arith))

pub All-Lacks : (ls : List Str) → All OneLine ls → All (Lacks b'\n') ls
All-Lacks [] h = tt
All-Lacks (l ∷ ls) (h, hs) = (OneLine-Lacks l h, All-Lacks ls hs)

-- The command of an optional text.
pub text_cmd-Stays :
    (w t : Str) (o : Option Str)
    → is_keyword w ≡ true
    → OneLine t
    → OneLine? o
    → All Stays (text_cmd (w ++ b' ' ∷ t) o)
unfolding str_eq
text_cmd-Stays w t none k lt lo = tt
text_cmd-Stays w t (some []) k lt lo = tt
text_cmd-Stays w t (some (c ∷ s)) k lt lo =
    (rw append_assoc (command-Stays w (t ++ c ∷ s) k (OneLine-append t (c ∷ s) lt lo)), tt)

pub itoa-OneLine : (z : ℤ) → OneLine (itoa z)
itoa-OneLine z = IsPlain-OneLine (itoa z) (itoa-IsPlain z)

pub itoa-NoSpace : (z : ℤ) → All NoSpace (itoa z)
itoa-NoSpace z = IsPlain-NoSpace (itoa z) (itoa-IsPlain z)

-- A session's name: the configured prefix, a word of the resource's, and a text without blanks.
pub session_name-IsWord :
    (prefix w x : Str)
    → All NoSpace prefix
    → is_keyword w ≡ true
    → All NoSpace x
    → IsWord (prefix ++ (w ++ x))
session_name-IsWord prefix [] x hp k hx = absurd ((is_keyword-IsWord [] k).0.0 refl)
session_name-IsWord prefix (c ∷ w) x hp k hx =
    let (word, other) = is_keyword-IsWord (c ∷ w) k in
    IsWord-append prefix ((c ∷ w) ++ x) hp
      (cons-ne-nil c (w ++ x), All-append NoSpace (c ∷ w) x word.1 hx)

-- Lines that stay whatever modes have been entered stay inside the session.
not_left : (a b : Bool) → (a || b) ≡ false → (a ≡ false) × (b ≡ false)
not_left a b h = ground arith

hard_or_exit :
    (w : Str) (ws : List Str)
    → leaves_first (w ∷ ws) ≡ false
    → (leaves_hard w ≡ false) × (str_eq w (codes "exit") ≡ false)
hard_or_exit w ws h = ground arith

stays_on :
    (ws : List Str) (k : List Mode → Bool)
    → ((modes : List Mode) → k modes ≡ true)
    → leaves_first ws ≡ false
    → (modes : List Mode) → and_then (after_words modes ws) k ≡ true
stays_on [] k hk h modes = hk modes
stays_on (w ∷ ws) k hk h modes = let (a, b) = hard_or_exit w ws h in rw (a, b) (hk _)

pub Stays-inside :
    (ls : List Str) → All Stays ls → (modes : List Mode) → stays_inside ls modes ≡ true
unfolding stays_inside after_line leaves_session
Stays-inside [] h modes = refl
Stays-inside (l ∷ ls) (h, hs) modes =
    let (line, first) = not_left (has_newline l) (leaves_first (fields l)) h in
    rw line (stays_on (fields l) (stays_inside ls) (Stays-inside ls hs) first modes)

pub All-Stays-IsInside : (ls : List Str) → All Stays ls → IsInside ls
All-Stays-IsInside ls h = Stays-inside ls h []
