-- ===== src/Notifier/Smtp/Mail.antt =====
-- What a reader of the mail that `buildMIME` builds finds in it.
use Prim.Native.Char.{Char, code}
use text.Mathlib.TextLemmas.{nil-append, cons-append, append_assoc, cons-ne-nil}
use domainturva.Prelude.{
  ℕ, zero, suc, String, ◌<>◌, ◌==◌, ◌≡◌, ◌≢◌, refl, ◌∙◌, ap, Bool, false, ◌&&◌, List, [], ◌∷◌, All,
  eqb, if◌then◌else◌, arith, ==-eq-false,
}
use domainturva.Notifier.Smtp.{join, build_mime}

-- Nothing in the text is a carriage return.
abbrev pub HasNoCr : String → Type 0
HasNoCr String.[] = Unit
HasNoCr (String.◌∷◌ c s) = (code c ≢ 13) × HasNoCr s

abbrev begins_lf : String → Bool
begins_lf String.[] = false
begins_lf (String.◌∷◌ c s) = eqb (code c) 10

abbrev behind_first : String → String
behind_first String.[] = ""
behind_first (String.◌∷◌ c s) = s

-- The text up to the first CRLF, and the text behind it.
pub take_line : String → String × String
take_line String.[] = ("", "")
take_line (String.◌∷◌ c s) =
    let (line, rest) = take_line s in
    if eqb (code c) 13 && begins_lf s then ("", behind_first s) else (String.◌∷◌ c line, rest)

-- The lines up to the first empty one, at most `n` of them, and the text behind it.
pub read_header : ℕ → String → List String × String
unfolding take_line
read_header zero s = ([], s)
read_header (suc n) s =
    let (line, rest) = take_line s in
    let (lines, body) = read_header n rest in
    if line == "" then ([], rest) else (line ∷ lines, body)

crlf-append : (rest : String) → "\r\n" <> rest ≡ String.◌∷◌ "\r" (String.◌∷◌ "\n" rest)
crlf-append rest =
    cons-append "\r" "\n" rest
    ∙ ap (String.◌∷◌ "\r") (cons-append "\n" "" rest ∙ ap (String.◌∷◌ "\n") (nil-append rest))

take_crlf : (rest : String) → take_line ("\r\n" <> rest) ≡ ("", rest)
take_crlf rest = rw (crlf-append rest) (unfold take_line in refl)

take_line_cons :
    (c : Char) (s : String)
    → code c ≢ 13
    → take_line (String.◌∷◌ c s) ≡ (String.◌∷◌ c (take_line s).0, (take_line s).1)
unfolding take_line
take_line_cons c s ne = let other : eqb (code c) 13 ≡ false = ground arith in rw other refl

take_line_lem : (s rest : String) → HasNoCr s → take_line (s <> "\r\n" <> rest) ≡ (s, rest)
take_line_lem String.[] rest h = rw (nil-append ("\r\n" <> rest)) (take_crlf rest)
take_line_lem (String.◌∷◌ c s) rest (ne, h) =
    rw (cons-append c s ("\r\n" <> rest), take_line_cons c _ ne, take_line_lem s rest h) refl

HasNoCr-append : (s t : String) → HasNoCr s → HasNoCr t → HasNoCr (s <> t)
HasNoCr-append String.[] t h k = rw (nil-append t) k
HasNoCr-append (String.◌∷◌ c s) t (ne, h) k = rw (cons-append c s t) (ne, HasNoCr-append s t h k)

join-HasNoCr : (to : List String) → All HasNoCr to → HasNoCr (join to)
unfolding join
join-HasNoCr [] h = tt
join-HasNoCr (x ∷ []) (h, _) = h
join-HasNoCr (x ∷ y ∷ xs) (h, k) =
    HasNoCr-append x (", " <> join (y ∷ xs)) h
      (HasNoCr-append ", " (join (y ∷ xs)) (omega arith) (join-HasNoCr (y ∷ xs) k))

ne_empty : (c : Char) (s t : String) → ((String.◌∷◌ c s <> t) == "") ≡ false
ne_empty c s t = rw (cons-append c s t) (==-eq-false _ "" (cons-ne-nil c (s <> t)))

-- A header line, and the header behind it.
read_line :
    (n : ℕ) (line rest : String)
    → HasNoCr line
    → (line == "") ≡ false
    → read_header (suc n) (line <> "\r\n" <> rest)
      ≡ (line ∷ (read_header n rest).0, (read_header n rest).1)
unfolding read_header
read_line n line rest h ne = rw (take_line_lem line rest h, ne) refl

read_whole :
    (n : ℕ) (whole line rest : String)
    → whole ≡ line <> "\r\n"
    → HasNoCr line
    → (line == "") ≡ false
    → read_header (suc n) (whole <> rest) ≡ (line ∷ (read_header n rest).0, (read_header n rest).1)
read_whole n whole line rest e h ne =
    rw (e, append_assoc line "\r\n" rest) (read_line n line rest h ne)

read_field :
    (n : ℕ) (name value rest : String)
    → HasNoCr name
    → HasNoCr value
    → ((name <> value) == "") ≡ false
    → read_header (suc n) (name <> value <> "\r\n" <> rest)
      ≡ ((name <> value) ∷ (read_header n rest).0, (read_header n rest).1)
read_field n name value rest hn hv ne =
    rw (← append_assoc name value ("\r\n" <> rest))
      (read_line n (name <> value) rest (HasNoCr-append name value hn hv) ne)

read_end : (n : ℕ) (body : String) → read_header (suc n) ("\r\n" <> body) ≡ ([], body)
unfolding read_header
read_end n body = rw (take_crlf body) refl

-- A reader of the mail that buildMIME builds finds the five header lines with the sender, the
-- recipients and the subject that were given, and then the body, where none of those three
-- contains a carriage return.
pub read_header-build_mime :
    (from : String) (to : List String) (subject body : String)
    → HasNoCr from
    → All HasNoCr to
    → HasNoCr subject
    → read_header 6 (build_mime from to subject body) ≡ (
      ("From: " <> from)
          ∷ ("To: " <> join to)
          ∷ ("Subject: " <> subject)
          ∷ "MIME-Version: 1.0"
          ∷ "Content-Type: text/plain; charset=\"utf-8\""
          ∷ [],
      body,
    )
unfolding build_mime
read_header-build_mime from to subject body hf ht hs =
    let end = "\r\n" <> body in
    let mime = "Content-Type: text/plain; charset=\"utf-8\"\r\n" <> end in
    let about = "MIME-Version: 1.0\r\n" <> mime in
    let what = "Subject: " <> subject <> "\r\n" <> about in
    let whom = "To: " <> join to <> "\r\n" <> what in
    rw
      (
        read_field 5 "From: " from whom (omega arith) hf (ne_empty "F" "rom: " from),
        read_field 4 "To: " (join to) what (omega arith) (join-HasNoCr to ht)
            (ne_empty "T" "o: " (join to)),
        read_field 3 "Subject: " subject about (omega arith) hs (ne_empty "S" "ubject: " subject),
        read_whole 2 "MIME-Version: 1.0\r\n" "MIME-Version: 1.0" mime refl (omega arith) refl,
        read_whole 1 "Content-Type: text/plain; charset=\"utf-8\"\r\n"
            "Content-Type: text/plain; charset=\"utf-8\"" end refl (omega arith) refl,
        read_end 0 body,
      )
      refl
