-- ===== src/Text/Split.antt =====
-- Splitting and joining.
use pulumi_eos.Base.{ℕ, List, [], ◌∷◌, ◌++◌, ◌≡◌, ◌≢◌, refl, ap, ◌∙◌, All-append, arith, All}
use pulumi_eos.Text.{Str, codes, join, split, words, non_empty, fields}
use pulumi_eos.Text.Laws.{NoSpace}

abbrev pub Lacks : ℕ → Str → Type 0
Lacks sep = All (λ c. c ≢ sep)

pub split-Lacks : (s : Str) (sep : ℕ) → Lacks sep s → split s sep ≡ s ∷ []
unfolding split
split-Lacks [] sep h = refl
split-Lacks (c ∷ s) sep (h, hs) = ground (arith, split-Lacks s sep hs)

pub split-append :
    (s : Str) (sep : ℕ) (t : Str) → Lacks sep s → split (s ++ sep ∷ t) sep ≡ s ∷ split t sep
unfolding split
split-append [] sep t h = ground arith
split-append (c ∷ s) sep t (h, hs) = ground (arith, split-append s sep t hs)

-- Splitting undoes joining, where no part holds the separator.
pub split-join :
    (ps : List Str) (sep : ℕ) → ps ≢ [] → All (Lacks sep) ps → split (join ps (sep ∷ [])) sep ≡ ps
unfolding join
split-join [] sep ne h = absurd (ne refl)
split-join (p ∷ []) sep ne (h, _) = split-Lacks p sep h
split-join (p ∷ q ∷ ps) sep ne (h, hs) =
    split-append p sep _ h ∙ ap (λ l. p ∷ l) (split-join (q ∷ ps) sep (cc) hs)

abbrev pub IsWord : Str → Type 0
IsWord s = (s ≢ []) × All NoSpace s

words-word : (s : Str) → All NoSpace s → words s ≡ s ∷ []
unfolding words
words-word [] h = refl
words-word (c ∷ s) (h, hs) = rw (h, words-word s hs)

pub words-append : (s t : Str) → All NoSpace s → words (s ++ b' ' ∷ t) ≡ s ∷ words t
unfolding words
words-append [] t h = refl
words-append (c ∷ s) t (h, hs) = rw (h, words-append s t hs)

words-join : (ps : List Str) → ps ≢ [] → All IsWord ps → words (join ps (codes " ")) ≡ ps
unfolding join
words-join [] ne h = absurd (ne refl)
words-join (p ∷ []) ne (h, _) = words-word p h.1
words-join (p ∷ q ∷ ps) ne (h, hs) =
    words-append p _ h.1 ∙ ap (λ l. p ∷ l) (words-join (q ∷ ps) (cc) hs)

non_empty-words : (ps : List Str) → All IsWord ps → non_empty ps ≡ ps
unfolding non_empty
non_empty-words [] h = refl
non_empty-words ([] ∷ ps) (h, hs) = absurd (h.0 refl)
non_empty-words ((c ∷ s) ∷ ps) (h, hs) = ap (λ l. (c ∷ s) ∷ l) (non_empty-words ps hs)

-- `Fields` finds the words of a line that was joined with blanks.
pub fields-join : (ps : List Str) → ps ≢ [] → All IsWord ps → fields (join ps (codes " ")) ≡ ps
unfolding fields
fields-join ps ne h = rw (words-join ps ne h) (non_empty-words ps h)

pub append-ne-nil : (a b : Str) → b ≢ [] → a ++ b ≢ []
append-ne-nil [] b h e = h e
append-ne-nil (c ∷ a) b h e = cc

pub IsWord-append : (a b : Str) → All NoSpace a → IsWord b → IsWord (a ++ b)
IsWord-append a b ha (ne, hb) = (append-ne-nil a b ne, All-append NoSpace a b ha hb)
