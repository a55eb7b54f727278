-- ===== src/Tests/Durable.antt =====
-- An append whose flush writes a part of the line, and the next run of the program.
use Prim.Native.Char.{Char}
use Prim.Native.String.{[] as nil, ◌∷◌ as char}
use text.Mathlib.TextLemmas.{
  append-nil, nil-append, append_assoc, append_cancel_left, cons-append, cons≢nil,
}
use mathlib.Core.List
use cotrex_ai.Kernel.Store.{EventStoreError}
use cotrex_ai.Base.{
  ◌||◌, ℕ, ◌≡◌, ◌≢◌, refl, sym, ap, ◌∙◌, inl, inr, Bool, true, false, ◌&&◌, none, String, ◌<>◌,
  List, [], ◌∷◌, ◌++◌, map, Result, ok, err, Bool-cases, if◌then◌else◌, ◌==◌, nat_eq, string_eq,
  arith,
}
use cotrex_ai.Kernel.Event.{Event, EventPayload, execution_failed}
use cotrex_ai.Kernel.Store.Memory.{Stamp}
use cotrex_ai.Kernel.Store.Persistent.{
  Format, Disk, PersistentEventStore, append, fresh, cached_meta,
}
use cotrex_ai.Kernel.Store.Persistent.Journal.{IsFormat, IsKept, IsValid}
use cotrex_ai.Kernel.Store.Persistent.Buffered.{
  IsOneLine, IsCompact, IsBuffered, AllOneLine, file_of,
}
use cotrex_ai.Kernel.Store.Persistent.Recovery.{IsDirectory, IsCached}
use cotrex_ai.Kernel.Store.Persistent.Durable.{Survives, append-Survives}

-- The only event that the format knows, which it prints as `{}`.
abbrev crash : Event
crash = record {
  id = 1;
  sequence = 1;
  occurred_at = 60;
  payload =
      execution_failed (record { execution_id = 0; error = "{}"; duration_ms = 0; failed_at = 0 });
}

abbrev print : Event → Result String String
print e = elim e.payload [
  | execution_failed f ↦
      if (e.id == 1 && e.sequence == 1)
        && ((e.occurred_at == 60 && f.execution_id == 0)
            && ((f.duration_ms == 0 && f.failed_at == 0) && (f.error == "{}")))
      then ok "{}"
      else err "no format"
  | other ↦ err "no format"
]

abbrev json : Format
json = record {
  encode = print;
  decode = λ l. if l == "{}" then ok crash else err "EOF while parsing an object";
  encode_meta = λ m. ok "{}";
  decode_meta = λ t. err "no format";
  blank = λ l. false;
}

print_lem :
    (i s o : ℕ) (p : EventPayload) (line : String)
    → print (record { id = i; sequence = s; occurred_at = o; payload = p }) ≡ ok line
    → (line ≡ "{}")
      × (◌≡◌ {A = Result Event String}
          (ok crash)
          (ok (record { id = i; sequence = s; occurred_at = o; payload = p })))
print_lem i s o (execution_failed f) line h = ground (arith, string_eq.beq_iff f.error "{}")
print_lem i s o _ line h = cc h

read_back :
    (e : Event) (line : String)
    → print e ≡ ok line
    → (line ≡ "{}") × (◌≡◌ {A = Result Event String} (ok crash) (ok e))
read_back e line h = print_lem e.id e.sequence e.occurred_at e.payload line h

json-IsFormat : IsFormat json
json-IsFormat = record {
  round_trip = λ e line h. let (same, back) = read_back e line h in (refl, rw same back);
}

abbrev behind : String → String
behind nil = nil
behind (char c s) = s

break_full : ◌≢◌ {A = String} "" "\n"
break_full h = cc h

break_short : (c d : Char) (s : String) → char c (char d s) ≢ "\n"
break_short c d s h = cons≢nil (ap behind h)

abbrev is_break : Char → Bool
is_break c = char c nil == "\n"

abbrev has_break : String → Bool
has_break nil = false
has_break (char c s) = is_break c || has_break s

break_first : (n s : String) → n ≡ "\n" → has_break (n <> s) ≡ true
break_first nil s h = absurd (break_full h)
break_first (char c nil) s h =
    let test : is_break c ≡ true = (string_eq.beq_iff (char c nil) "\n").1 h in
    rw (cons-append c nil s, test) refl
break_first (char c (char d n)) s h = absurd (break_short c d n h)

has_break-append : (a b : String) → has_break (a <> ("\n" <> b)) ≡ true
has_break-append nil b = rw (nil-append ("\n" <> b)) (break_first "\n" b refl)
has_break-append (char c a) b =
    rw (cons-append c a ("\n" <> b), has_break-append a b) (ground arith)

braces-IsOneLine : IsOneLine "{}"
braces-IsOneLine a b h = cc (ap has_break h, has_break-append a b)

cut_braces : (t c : String) → t <> c ≡ "{}" → c ≢ "" → (t == "{}") ≡ false
cut_braces t c h some_lost = elim (Bool-cases (t == "{}")) [
  | inl same ↦
      let whole : t ≡ "{}" = (string_eq.beq_iff t "{}").0 same in
      absurd (some_lost (append_cancel_left t c "" (h ∙ sym whole ∙ sym (append-nil t))))
  | inr other ↦ other
]

json-IsCompact : IsCompact json
json-IsCompact = record {
  one_line = λ e line h. rw ((read_back e line h).0) braces-IsOneLine;
  incomplete = λ e t c h some_part some_lost.
      let cut = cut_braces t c (read_back e (t <> c) h).0 some_lost in
      (refl, ("EOF while parsing an object", rw cut refl));
}

-- `BufRead::lines`
abbrev push : Char → List String → List String
push c [] = char c nil ∷ []
push c (l ∷ ls) = char c l ∷ ls

abbrev split : String → List String
split nil = []
split (char c s) = let rest = split s in if is_break c then "" ∷ rest else push c rest

own_line : (c : Char) (l : String) → IsOneLine (char c l) → (is_break c ≡ false) × IsOneLine l
own_line c l one = (
  elim (Bool-cases (is_break c)) [
    | inl break ↦
        let same : char c nil ≡ "\n" = (string_eq.beq_iff (char c nil) "\n").0 break in
        absurd (
          one "" l (
            ap (λ s. char c s) (sym (nil-append l))
            ∙ sym (cons-append c nil l)
            ∙ ap (λ s. s <> l) same
            ∙ sym (nil-append ("\n" <> l))))
    | inr other ↦ other
  ],
  λ a b h. one (char c a) b (ap (λ s. char c s) h ∙ sym (cons-append c a ("\n" <> b))),
)

split_first : (n s : String) → n ≡ "\n" → split (n <> s) ≡ "" ∷ split s
split_first nil s h = absurd (break_full h)
split_first (char c nil) s h =
    let test : is_break c ≡ true = (string_eq.beq_iff (char c nil) "\n").1 h in
    rw (cons-append c nil s, nil-append s, test) refl
split_first (char c (char d n)) s h = absurd (break_short c d n h)

split_line : (l s : String) → IsOneLine l → split (l <> ("\n" <> s)) ≡ l ∷ split s
split_line nil s one = rw (nil-append ("\n" <> s)) (split_first "\n" s refl)
split_line (char c l) s one =
    let (other, rest) = own_line c l one in
    rw (cons-append c l ("\n" <> s), other, split_line l s rest) refl

split_rest : (t : String) → IsOneLine t → t ≢ "" → split t ≡ t ∷ []
split_rest nil one some_part = absurd (some_part refl)
split_rest (char c nil) one some_part = let (other, rest) = own_line c nil one in rw other refl
split_rest (char c (char d t)) one some_part =
    let (other, rest) = own_line c (char d t) one in
    rw (other, split_rest (char d t) rest cons≢nil) refl

split-file_of :
    (ls : List String) (t : String) → AllOneLine ls → split (file_of ls <> t) ≡ ls ++ split t
split-file_of [] t all = ap split (nil-append t)
split-file_of (l ∷ ls) t all =
    ap split (append_assoc (l <> "\n") (file_of ls) t ∙ append_assoc l "\n" (file_of ls <> t))
    ∙ split_line l (file_of ls <> t) all.0
    ∙ ap (λ r. l ∷ r) (split-file_of ls t all.1)

-- The text in the file, the text that the writer keeps, and whether the disk has room. Where not, a
-- flush writes one character and fails.
abbrev front : String → String
front nil = nil
front (char c s) = char c nil

halves : (s : String) → s ≡ front s <> behind s
halves nil = sym (nil-append "")
halves (char c s) = sym (cons-append c nil s ∙ ap (λ t. char c t) (nil-append s))

abbrev kept_lines : String → List String
kept_lines nil = []
kept_lines (char c s) = char c s ∷ []

abbrev pages : Disk
pages = record {
  State = String × String × Bool;
  create_dir_all = λ d. (ok tt, d);
  meta_exists = λ d. false;
  read_meta = λ d. err "No such file or directory";
  log_exists = λ d. true;
  lines = λ d. ok (map (λ l. ok l) (split d.0));
  open_log = λ d. (ok tt, (d.0, "", d.2));
  write_line = λ l d. (ok tt, (d.0, d.1 <> (l <> "\n"), d.2));
  flush = λ d. elim d.2 [
    | true ↦ (ok tt, (d.0 <> d.1, "", true))
    | false ↦ (err "disk full", (d.0 <> front d.1, behind d.1, false))
  ];
  write_tmp = λ t d. (ok tt, d);
  rename_tmp = λ d. (ok tt, d);
}

pages-IsKept : IsKept pages (λ d. split d.0) (λ d. kept_lines d.1)
pages-IsKept = record { tmp_keeps = λ t d. (refl, refl); rename_keeps = λ d. (refl, refl) }

pages-IsDirectory : IsDirectory pages (λ d. split d.0) (λ d. kept_lines d.1)
pages-IsDirectory = record {
  mkdir_keeps = λ d. refl;
  mkdir_cache = λ d. (refl, refl);
  open_ok = λ d h. (refl, refl);
  open_err = λ d x h. refl;
  readable = λ d. inr (refl, refl);
}

flush_full :
    (f b : String) (room : Bool) (e : String)
    → (pages.flush (f, b, room)).0 ≡ err e
    → (x : String) × ((pages.flush (f, b, room)).1.0 ≡ f <> x)
      × (b ≡ x <> (pages.flush (f, b, room)).1.1)
flush_full f b true e h = cc h
flush_full f b false e h = (front b, refl, halves b)

flush_free :
    (f b : String) (room : Bool)
    → (pages.flush (f, b, room)).0 ≡ ok tt
    → ((pages.flush (f, b, room)).1.0 ≡ f <> b) × ((pages.flush (f, b, room)).1.1 ≡ "")
flush_free f b true h = (refl, refl)
flush_free f b false h = cc h

pages-IsBuffered : IsBuffered pages (λ d. d.0) (λ d. d.1) (λ d. split d.0)
pages-IsBuffered = record {
  write_ok = λ line d h. ("", sym (append-nil d.0), sym (nil-append (d.1 <> (line <> "\n"))));
  write_err = λ line d e h. cc h;
  flush_ok = λ d h. flush_free d.0 d.1 d.2 h;
  flush_err = λ d e h. flush_full d.0 d.1 d.2 e h;
  cache = record { tmp_keeps = λ t d. (refl, refl); rename_keeps = λ d. (refl, refl) };
  read_whole = λ d ls all h.
      ap split (h ∙ sym (append-nil (file_of ls))) ∙ split-file_of ls "" all ∙ List.append-nil ls;
  read_rest = λ d ls t all one some_part h.
      ap split h ∙ split-file_of ls t all ∙ ap (λ r. ls ++ r) (split_rest t one some_part);
}

abbrev cramped : PersistentEventStore json pages
cramped = record { disk = ("", "", false); meta = fresh; capacity = none }

cramped-IsValid : IsValid (λ d. split d.0) (λ d. kept_lines d.1) cramped []
cramped-IsValid = record {
  flushed = refl;
  recorded = tt;
  numbered = tt;
  next = refl;
  count = refl;
  room = omega arith;
}

abbrev stamp : Stamp
stamp = record { id = 1; now = 60 }

abbrev torn : Result Event EventStoreError × PersistentEventStore json pages
torn = append json pages stamp crash.payload cramped

no_cache : IsCached json pages torn.1.disk
unfolding cached_meta
no_cache = inl refl

append-Survives_example :
    Survives json-IsFormat json-IsCompact pages-IsBuffered pages-IsKept pages-IsDirectory
      crash.payload [] torn.0 torn.1.disk
append-Survives_example =
    append-Survives json-IsFormat json-IsCompact pages-IsBuffered pages-IsKept pages-IsDirectory
      stamp crash.payload cramped [] torn.1.disk cramped-IsValid (tt, (refl, refl)) (omega arith)
      ("", torn.1.disk.1, sym (append-nil torn.1.disk.0), sym (nil-append torn.1.disk.1)) no_cache
