-- ===== src/Kernel/Store/Persistent/Buffered.antt =====
-- The log file as text behind its `BufWriter`: a write or a flush that fails may have written a part.
use text.Mathlib.TextLemmas.{append-nil, nil-append, append_assoc}
use cotrex_ai.Base.{
  ◌≡◌, ◌≢◌, sym, ap, ◌∙◌, ◌⊎◌, inl, inr, false, String, ◌<>◌, List, [], ◌∷◌, ◌++◌, ok, err,
}
use cotrex_ai.Base.Cut.{empty-cases, cut_line, nothing_left}
use cotrex_ai.Kernel.Event.{Event}
use cotrex_ai.Kernel.Store.Persistent.{Format, Disk}
use cotrex_ai.Kernel.Store.Persistent.Journal.{IsKept}

abbrev pub IsOneLine : String → Type 0
IsOneLine l = (a b : String) → l ≢ a <> ("\n" <> b)

-- serde_json prints an event on one line, and does not read it where it is cut short.
pub record IsCompact (F : Format) : Type 0 where
  pub one_line : (e : Event) (line : String) → F.encode e ≡ ok line → IsOneLine line
  pub incomplete :
      (e : Event) (t c : String)
      → F.encode e ≡ ok (t <> c)
      → t ≢ ""
      → c ≢ ""
      → (F.blank t ≡ false) × ((x : String) × (F.decode t ≡ err x))

-- Lines with their ends.
abbrev pub file_of : List String → String
file_of [] = ""
file_of (l ∷ ls) = (l <> "\n") <> file_of ls

abbrev pub AllOneLine : List String → Type 0
AllOneLine [] = Unit
AllOneLine (l ∷ ls) = IsOneLine l × AllOneLine ls

-- The file holds the text `file`, and the `BufWriter` keeps the text `buffer`, as the documentation
-- of `BufWriter` has it: what is written goes to the buffer, and from its front to the file, in a
-- write that needs the room too; an error may leave a part in the file. `BufRead::lines` gives the
-- lines `content`, also a last one that has no end.
pub record IsBuffered (D : Disk) (file buffer : D.State → String) (content : D.State → List String)
    : Type 0 where
  pub write_ok :
      (line : String) (d : D.State)
      → (D.write_line line d).0 ≡ ok tt
      → (x : String) × (file (D.write_line line d).1 ≡ file d <> x)
        × (buffer d <> (line <> "\n") ≡ x <> buffer (D.write_line line d).1)
  pub write_err :
      (line : String) (d : D.State) (e : String)
      → (D.write_line line d).0 ≡ err e
      → (x : String) × (part : String) × (lost : String) × (file (D.write_line line d).1
          ≡ file d <> x)
        × (buffer d <> part ≡ x <> buffer (D.write_line line d).1)
        × (part <> lost ≡ line <> "\n")
  pub flush_ok :
      (d : D.State)
      → (D.flush d).0 ≡ ok tt
      → (file (D.flush d).1 ≡ file d <> buffer d) × (buffer (D.flush d).1 ≡ "")
  pub flush_err :
      (d : D.State) (e : String)
      → (D.flush d).0 ≡ err e
      → (x : String) × (file (D.flush d).1 ≡ file d <> x) × (buffer d ≡ x <> buffer (D.flush d).1)
  pub cache : IsKept D file buffer
  pub read_whole :
      (d : D.State) (ls : List String) → AllOneLine ls → file d ≡ file_of ls → content d ≡ ls
  pub read_rest :
      (d : D.State) (ls : List String) (t : String)
      → AllOneLine ls
      → IsOneLine t
      → t ≢ ""
      → file d ≡ file_of ls <> t
      → content d ≡ ls ++ t ∷ []

file_of-snoc : (ls : List String) (l : String) → file_of (ls ++ l ∷ []) ≡ file_of ls <> (l <> "\n")
file_of-snoc [] l = append-nil (l <> "\n") ∙ sym (nil-append (l <> "\n"))
file_of-snoc (k ∷ ls) l =
    ap (λ s. (k <> "\n") <> s) (file_of-snoc ls l)
    ∙ sym (append_assoc (k <> "\n") (file_of ls) (l <> "\n"))

pub AllOneLine-snoc :
    (ls : List String) (l : String) → AllOneLine ls → IsOneLine l → AllOneLine (ls ++ l ∷ [])
AllOneLine-snoc [] l h one = (one, tt)
AllOneLine-snoc (k ∷ ls) l h one = (h.0, AllOneLine-snoc ls l h.1 one)

front-IsOneLine : (t c line : String) → t <> c ≡ line → IsOneLine line → IsOneLine t
front-IsOneLine t c line h one a b same = one a (b <> c) (
    sym h
    ∙ ap (λ s. s <> c) same
    ∙ append_assoc a ("\n" <> b) c
    ∙ ap (λ s. a <> s) (append_assoc "\n" b c))

module _ {D : Disk} {file buffer : D.State → String} {content : D.State → List String}
    (B : IsBuffered D file buffer content) where
  -- The program may end here: what the writer keeps is lost, but for a front part.
  abbrev pub IsLeft : D.State → D.State → Type 0
  IsLeft last d =
      (z : String) × (lost : String) × (file d ≡ file last <> z) × (buffer last ≡ z <> lost)

  -- Behind the whole lines `ls`, file and buffer hold a front part of the line.
  abbrev pub IsFront : List String → String → D.State → Type 0
  IsFront ls line d =
      (a : String) × (rest : String) × (file d ≡ file_of ls <> a)
      × (a <> (buffer d <> rest) ≡ line <> "\n")

  -- The file and no buffer hold whole lines.
  abbrev pub IsEnded : List String → D.State → Type 0
  IsEnded ls d = (file d ≡ file_of ls) × (buffer d ≡ "")

  pub ended-left :
      (ls : List String) (last d : D.State) → IsEnded ls last → IsLeft last d → file d ≡ file_of ls
  ended-left ls last d (whole, idle) (z, lost, more, gone) =
      let none_kept = nothing_left z lost (sym gone ∙ idle) in
      more ∙ ap (λ s. file last <> s) none_kept.0 ∙ append-nil (file last) ∙ whole

  pub write_err-IsFront :
      (ls : List String) (line : String) (d : D.State) (e : String)
      → IsEnded ls d
      → (D.write_line line d).0 ≡ err e
      → IsFront ls line (D.write_line line d).1
  write_err-IsFront ls line d e (whole, idle) bad =
      let (x, part, lost, more, kept, cut) = B.write_err line d e bad in
      let b' = buffer (D.write_line line d).1 in
      (
        x,
        lost,
        more ∙ ap (λ s. s <> x) whole,
        sym (append_assoc x b' lost)
            ∙ ap (λ s. s <> lost) (sym kept ∙ ap (λ s. s <> part) idle ∙ nil-append part)
            ∙ cut,
      )

  pub write_ok-IsFront :
      (ls : List String) (line : String) (d : D.State)
      → IsEnded ls d
      → (D.write_line line d).0 ≡ ok tt
      → (x : String) × (file (D.write_line line d).1 ≡ file_of ls <> x)
        × (x <> buffer (D.write_line line d).1 ≡ line <> "\n")
  write_ok-IsFront ls line d (whole, idle) good =
      let (x, more, kept) = B.write_ok line d good in
      (
        x,
        more ∙ ap (λ s. s <> x) whole,
        sym kept ∙ ap (λ s. s <> (line <> "\n")) idle ∙ nil-append (line <> "\n"),
      )

  pub flush_err-IsFront :
      (ls : List String) (line x e : String) (d : D.State)
      → file d ≡ file_of ls <> x
      → x <> buffer d ≡ line <> "\n"
      → (D.flush d).0 ≡ err e
      → IsFront ls line (D.flush d).1
  flush_err-IsFront ls line x e d held kept bad =
      let (y, more, moved) = B.flush_err d e bad in
      let b' = buffer (D.flush d).1 in
      (
        x <> y,
        "",
        more ∙ ap (λ s. s <> y) held ∙ append_assoc (file_of ls) x y,
        ap (λ s. (x <> y) <> s) (append-nil b')
            ∙ append_assoc x y b'
            ∙ ap (λ s. x <> s) (sym moved)
            ∙ kept,
      )

  pub flush_ok-IsEnded :
      (ls : List String) (line x : String) (d : D.State)
      → file d ≡ file_of ls <> x
      → x <> buffer d ≡ line <> "\n"
      → (D.flush d).0 ≡ ok tt
      → IsEnded (ls ++ line ∷ []) (D.flush d).1
  flush_ok-IsEnded ls line x d held kept good =
      let (more, idle) = B.flush_ok d good in
      (
        more
            ∙ ap (λ s. s <> buffer d) held
            ∙ append_assoc (file_of ls) x (buffer d)
            ∙ ap (λ s. file_of ls <> s) kept
            ∙ sym (file_of-snoc ls line),
        idle,
      )

  -- What the next run reads where the program ends with a front part of a line in file and buffer:
  -- the lines before, or these and the line, or these and a line that is cut short.
  pub read_front :
      (ls : List String) (line : String) (last d : D.State)
      → AllOneLine ls
      → IsOneLine line
      → IsFront ls line last
      → IsLeft last d
      → (content d ≡ ls)
        ⊎ (content d ≡ ls ++ line ∷ [])
        ⊎ ((t : String) × (c : String) × (content d ≡ ls ++ t ∷ [])
            × (t <> c ≡ line)
            × (t ≢ "")
            × (c ≢ ""))
  read_front ls line last d all one (a, rest, held, front) (z, lost, more, gone) =
      let t : String = a <> z in
      let found : file d ≡ file_of ls <> t =
        more ∙ ap (λ s. s <> z) held ∙ append_assoc (file_of ls) a z in
      let whole : t <> (lost <> rest) ≡ line <> "\n" =
        append_assoc a z (lost <> rest)
        ∙ ap (λ s. a <> s) (sym (append_assoc z lost rest) ∙ ap (λ s. s <> rest) (sym gone))
        ∙ front in
      elim (empty-cases t) [
        | inl nothing ↦ inl (
            B.read_whole d ls all
              (found ∙ ap (λ s. file_of ls <> s) nothing ∙ append-nil (file_of ls)))
        | inr some_part ↦ elim (empty-cases (lost <> rest)) [
          | inl all_there ↦
              let same : t ≡ line <> "\n" =
                sym (append-nil t) ∙ ap (λ s. t <> s) (sym all_there) ∙ whole in
              inr (
                inl (
                  B.read_whole d (ls ++ line ∷ []) (AllOneLine-snoc ls line all one)
                    (found ∙ ap (λ s. file_of ls <> s) same ∙ sym (file_of-snoc ls line))))
          | inr some_lost ↦
              let (c, same) = cut_line t (lost <> rest) line whole some_lost in
              let read =
                B.read_rest d ls t all (front-IsOneLine t c line same one) some_part found in
              elim (empty-cases c) [
                | inl no_more ↦ inr (
                    inl (
                      read
                      ∙ ap (λ l. ls ++ l ∷ [])
                          (sym (append-nil t) ∙ ap (λ s. t <> s) (sym no_more) ∙ same)))
                | inr cut ↦ inr (inr (t, c, read, same, some_part, cut))
              ]
        ]
      ]
