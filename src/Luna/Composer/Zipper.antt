-- ===== src/Luna/Composer/Zipper.antt =====
-- The composer as a text before and a text after the cursor (`InputBuffer` of
-- crates/luna/src/commands/chat.rs).
use Prim.Native.Char.{Char}
use Prim.Native.String
use text.Mathlib.TextLemmas.{nil-append, cons-append, append_assoc, append-nil}
use codex_sdk_rs.Prelude.{
  ℕ, ◌+◌, ◌≡◌, refl, sym, ap, ◌∙◌, String, true, false, Option, none, some, List, [], ◌∷◌, arith,
  eqb, ltb, ◌<◌, lt→ltb, inl, inr,
}
use codex_sdk_rs.Prelude.Bytes.{
  len_utf8, byte_len, unsnoc, byte_len-append, split_at-append, unsnoc-view, eqb_add, len_utf8-pos,
}
use codex_sdk_rs.Luna.Composer.{
  InputBuffer, set, clear, at_cursor, insert_str, insert_char, backspace, delete, move_left,
  move_right, move_home, move_end, start_of, rest_of, Edit, edit, edit_all,
}

-- What stands before and after the cursor.
pub record Zipper : Type 0 where
  pub before : String
  pub after : String

abbrev the_zipper : String → String → Zipper
the_zipper before after = record { before = before; after = after }

abbrev pub whole : Zipper → String
whole z = String.◌++◌ z.before z.after

abbrev pub buffer_of : Zipper → InputBuffer
buffer_of z = record { text = whole z; cursor = byte_len z.before }

abbrev back : Option (String × Char) → Zipper → Zipper
back none z = z
back (some (start, last)) z = record { before = start; after = String.◌∷◌ last z.after }

abbrev forth : String → String → Zipper
forth before String.[] = record { before = before; after = "" }
forth before (String.◌∷◌ c rest) = record {
  before = String.◌++◌ before (String.◌∷◌ c "");
  after = rest;
}

-- What an operation does there, character by character.
abbrev pub apply : Edit → Zipper → Zipper
apply (Edit.set_text text) z = record { before = text; after = "" }
apply (Edit.insert_text text) z = record { before = String.◌++◌ z.before text; after = z.after }
apply (Edit.insert_character c) z = record {
  before = String.◌++◌ z.before (String.◌∷◌ c "");
  after = z.after;
}
apply Edit.cleared z = record { before = ""; after = "" }
apply Edit.backspaced z = record { before = start_of (unsnoc z.before); after = z.after }
apply Edit.deleted z = record { before = z.before; after = rest_of z.after }
apply Edit.left z = back (unsnoc z.before) z
apply Edit.right z = forth z.before z.after
apply Edit.home z = record { before = ""; after = whole z }
apply Edit.ended z = record { before = whole z; after = "" }

abbrev pub apply_all : List Edit → Zipper → Zipper
apply_all [] z = z
apply_all (e ∷ edits) z = apply_all edits (apply e z)

eqb_self : (n : ℕ) → eqb n n ≡ true
eqb_self n = ground arith

ltb_self : (n : ℕ) → ltb n n ≡ false
ltb_self n = ground arith

lt_eqb : {m n : ℕ} → m < n → eqb m n ≡ false
lt_eqb h = ground arith

at_cursor-buffer_of : (z : Zipper) → at_cursor (buffer_of z) ≡ some (z.before, z.after)
at_cursor-buffer_of z = split_at-append z.before z.after

abbrev found : String → ℕ → Option InputBuffer
found text cursor = some (record { text = text; cursor = cursor })

same_buffer : {s t : String} {m n : ℕ} → s ≡ t → m ≡ n → found s m ≡ found t n
same_buffer {t = t} {m = m} p q = ap (λ s. found s m) p ∙ ap (λ n. found t n) q

insert_str-buffer_of :
    (t : String) (z : Zipper)
    → insert_str t (buffer_of z) ≡ some (buffer_of (apply (Edit.insert_text t) z))
unfolding insert_str
insert_str-buffer_of t z =
    rw (at_cursor-buffer_of z)
      (same_buffer (sym (append_assoc z.before t z.after)) (sym (byte_len-append z.before t)))

snoc_whole :
    (before after : String) (c : Char)
    → String.◌++◌ before (String.◌∷◌ c after)
      ≡ String.◌++◌ (String.◌++◌ before (String.◌∷◌ c "")) after
snoc_whole before after c =
    ap (String.◌++◌ before)
      (sym (cons-append c "" after ∙ ap (λ r. String.◌∷◌ c r) (nil-append after)))
    ∙ sym (append_assoc before (String.◌∷◌ c "") after)

snoc_len :
    (before : String) (c : Char)
    → byte_len before + len_utf8 c ≡ byte_len (String.◌++◌ before (String.◌∷◌ c ""))
unfolding byte_len
snoc_len before c = omega (arith, byte_len-append before (String.◌∷◌ c ""))

insert_char-buffer_of :
    (c : Char) (z : Zipper)
    → insert_char c (buffer_of z) ≡ some (buffer_of (apply (Edit.insert_character c) z))
unfolding insert_char
insert_char-buffer_of c z =
    rw (at_cursor-buffer_of z) (same_buffer (snoc_whole z.before z.after c) (snoc_len z.before c))

backspace-buffer_of :
    (before after : String)
    → let z = the_zipper before after in
      backspace (buffer_of z) ≡ some (buffer_of (apply Edit.backspaced z))
unfolding backspace byte_len unsnoc
backspace-buffer_of String.[] after = refl
backspace-buffer_of (String.◌∷◌ c s) after =
    rw
      (
        eqb_add (len_utf8 c) (byte_len s) (len_utf8-pos c),
        at_cursor-buffer_of (the_zipper (String.◌∷◌ c s) after),
      )
      refl

shorter :
    (before s : String) (c : Char)
    → byte_len before < byte_len (String.◌++◌ before (String.◌∷◌ c s))
unfolding byte_len
shorter before s c = omega (arith, byte_len-append before (String.◌∷◌ c s), len_utf8-pos c)

delete-buffer_of :
    (before after : String)
    → let z = the_zipper before after in
      delete (buffer_of z) ≡ some (buffer_of (apply Edit.deleted z))
unfolding delete byte_len
delete-buffer_of before String.[] = rw (append-nil, eqb_self (byte_len before)) refl
delete-buffer_of before (String.◌∷◌ c s) =
    rw (lt_eqb (shorter before s c), at_cursor-buffer_of (the_zipper before (String.◌∷◌ c s))) refl

move_left-buffer_of :
    (before after : String)
    → let z = the_zipper before after in
      move_left (buffer_of z) ≡ some (buffer_of (apply Edit.left z))
unfolding move_left byte_len unsnoc
move_left-buffer_of String.[] after = refl
move_left-buffer_of (String.◌∷◌ c s) after = elim (unsnoc-view (String.◌∷◌ c s)) [
  | inl empty ↦ absurd (omega (arith, ap byte_len empty, len_utf8-pos c))
  | inr (start, last, e, w) ↦
      rw
        (
          lt→ltb 0 (byte_len (String.◌∷◌ c s)) (omega (arith, len_utf8-pos c)),
          at_cursor-buffer_of (the_zipper (String.◌∷◌ c s) after),
          e,
        )
        (same_buffer
          (ap (λ before. String.◌++◌ before after) (sym w) ∙ sym (snoc_whole start after last))
          refl)
]

move_right-buffer_of :
    (before after : String)
    → let z = the_zipper before after in
      move_right (buffer_of z) ≡ some (buffer_of (apply Edit.right z))
unfolding move_right
move_right-buffer_of before String.[] = rw (append-nil, ltb_self (byte_len before)) refl
move_right-buffer_of before (String.◌∷◌ c s) =
    rw (lt→ltb _ _ (shorter before s c), at_cursor-buffer_of (the_zipper before (String.◌∷◌ c s)))
      (same_buffer (snoc_whole before s c) (snoc_len before c))

-- Every operation does to the buffer what it does around the cursor.
pub edit-buffer_of : (e : Edit) (z : Zipper) → edit e (buffer_of z) ≡ some (buffer_of (apply e z))
unfolding set clear move_home move_end byte_len
edit-buffer_of (Edit.set_text t) z = same_buffer (sym (append-nil t)) refl
edit-buffer_of (Edit.insert_text t) z = insert_str-buffer_of t z
edit-buffer_of (Edit.insert_character c) z = insert_char-buffer_of c z
edit-buffer_of Edit.cleared z = refl
edit-buffer_of Edit.backspaced z = backspace-buffer_of z.before z.after
edit-buffer_of Edit.deleted z = delete-buffer_of z.before z.after
edit-buffer_of Edit.left z = move_left-buffer_of z.before z.after
edit-buffer_of Edit.right z = move_right-buffer_of z.before z.after
edit-buffer_of Edit.home z = same_buffer (sym (nil-append (whole z))) refl
edit-buffer_of Edit.ended z = same_buffer (sym (append-nil (whole z))) refl

-- However it is edited, the composer never slices its text inside a character, so no edit panics,
-- and it is the text before and the text after a cursor: each operation inserts, removes or passes
-- there one character (or a text), in sequences of any length.
pub edit_all-buffer_of :
    (edits : List Edit) (z : Zipper)
    → edit_all edits (buffer_of z) ≡ some (buffer_of (apply_all edits z))
unfolding edit_all
edit_all-buffer_of [] z = refl
edit_all-buffer_of (e ∷ edits) z = rw (edit-buffer_of e z) (edit_all-buffer_of edits (apply e z))
