-- ===== src/Dns/Name/Encode.antt =====
-- What dns_parse_name of src/dnsd/dns_codec.c reads of a name in plain wire form, from where it stands or
-- through a pointer.
use fastrg_node.Base.{
  ℕ, zero, suc, ◌+◌, ◌-◌, ◌*◌, ◌/◌, ◌%◌, ◌≤◌, ◌<◌, ◌≡◌, refl, List, [], ◌∷◌, ◌++◌, true, false, leb,
  ltb, ◌==◌, if◌then◌else◌, length, arith, lt→ltb, ==_iff, length-append, length-drop, take, drop,
  Bool-cases, inl, inr, sym, ap, ◌∙◌,
}
use mathlib.Core.List.{append_assoc}
use fastrg_node.Dns.{ok, u16, read, read_bytes}
use fastrg_node.Dns.Name.{Cursor, again, follow, append_label, name_round, name_loop, parse_name}

-- The wire form of the labels of a name.
unfoldable pub encode : List (List ℕ) → List ℕ
encode [] = 0 ∷ []
encode (l ∷ ls) = length l ∷ (l ++ encode ls)

-- The text before a label: a dot follows where there is any.
abbrev pub dotted : List ℕ → List ℕ
dotted s = if ltb 0 (length s) then s ++ (46 ∷ []) else s

-- The text with the labels appended.
unfoldable pub spell : List ℕ → List (List ℕ) → List ℕ
spell s [] = s
spell s (l ∷ ls) = spell (dotted s ++ l) ls

abbrev pub AreLabels : List (List ℕ) → Type 0
AreLabels [] = Unit {0}
AreLabels (l ∷ ls) = (1 ≤ length l) × (length l ≤ 63) × AreLabels ls

pub read-drop : (pkt : List ℕ) (i x : ℕ) (xs : List ℕ) → drop i pkt ≡ x ∷ xs → read pkt i ≡ ok x
unfolding read
read-drop [] zero x xs h = absurd (omega (arith, ap length h))
read-drop [] (suc i) x xs h = absurd (omega (arith, ap length h))
read-drop (p ∷ pkt) zero x xs h = cc
read-drop (p ∷ pkt) (suc i) x xs h = read-drop pkt i x xs h

drop_nil : (i : ℕ) → drop {A = ℕ} i [] ≡ []
drop_nil zero = refl
drop_nil (suc i) = refl

pub drop-add : (pkt : List ℕ) (i k : ℕ) → drop (i + k) pkt ≡ drop k (drop i pkt)
drop-add pkt zero k = ap (λ n. drop n pkt) (omega arith)
drop-add [] (suc i) k = drop_nil (suc i + k) ∙ sym (drop_nil k)
drop-add (p ∷ pkt) (suc i) k =
    let e : suc i + k ≡ suc (i + k) = omega arith in ap (λ n. drop n (p ∷ pkt)) e ∙ drop-add pkt i k

pub drop-append : (xs ys : List ℕ) → drop (length xs) (xs ++ ys) ≡ ys
drop-append [] ys = refl
drop-append (x ∷ xs) ys = drop-append xs ys

pub take-append : (xs ys : List ℕ) → take (length xs) (xs ++ ys) ≡ xs
take-append [] ys = refl
take-append (x ∷ xs) ys = ap (λ t. x ∷ t) (take-append xs ys)

-- Every label takes a byte of the text.
length-spell :
    (ls : List (List ℕ)) (s : List ℕ) → AreLabels ls → length s + length ls ≤ length (spell s ls)
unfolding spell
length-spell [] s labels = omega arith
length-spell (l ∷ ls) s labels = ground (
  arith,
  length-spell ls (dotted s ++ l) labels.2,
  length-append {0} s (46 ∷ []),
  length-append {0} (s ++ (46 ∷ [])) l,
  length-append {0} s l,
)

-- One label.
append_label_lem :
    (pkt : List ℕ) (offset name_max : ℕ) (c : Cursor) (l rest : List ℕ)
    → length pkt < 65536
    → drop c.pos pkt ≡ length l ∷ (l ++ rest)
    → length l ≤ 63
    → length (dotted c.name ++ l) < name_max
    → append_label pkt offset name_max (length l) c
      ≡ ok (
          again (record c {
            consumed = if c.jumped then c.consumed else u16 (c.pos + 1 + length l - offset);
            pos = c.pos + 1 + length l;
            name = dotted c.name ++ l;
          }))
unfolding append_label read_bytes
append_label_lem pkt offset name_max c l rest short at small fits =
    let n : length pkt - c.pos ≡ suc (length l + length rest) =
      sym (length-drop c.pos pkt) ∙ (ap length at ∙ ap suc (length-append l rest)) in
    let e : u16 (c.pos + 1) ≡ c.pos + 1 = omega arith in
    let e' : u16 (c.pos + 1 + length l) ≡ c.pos + 1 + length l = omega arith in
    let inside : leb (c.pos + 1 + length l) (length pkt) ≡ true = ground arith in
    let bytes : take (length l) (drop (c.pos + 1) pkt) ≡ l =
      rw (drop-add pkt c.pos 1, at) (take-append l rest) in
    ground (
      arith,
      e,
      e',
      inside,
      bytes,
      length-append {0} (dotted c.name) l,
      length-append {0} c.name (46 ∷ []),
    )

name_loop-encode :
    (fuel : ℕ) (pkt : List ℕ) (offset name_max : ℕ) (c : Cursor) (ls : List (List ℕ))
    (rest : List ℕ)
    → length pkt < 65536
    → length ls < fuel
    → AreLabels ls
    → drop c.pos pkt ≡ encode ls ++ rest
    → length (spell c.name ls) < name_max
    → (c.jumped ≡ false → offset ≤ c.pos)
    → (pos : ℕ) × (name_loop fuel pkt offset name_max c
        ≡ ok (record c {
          consumed = if c.jumped then c.consumed else u16 (c.pos - offset + length (encode ls));
          pos = pos;
          name = spell c.name ls;
        }))
unfolding name_loop name_round encode spell
name_loop-encode zero pkt offset name_max c ls rest short enough labels at fits behind =
    absurd (omega arith)
name_loop-encode (suc fuel) pkt offset name_max c [] rest short enough labels at fits behind =
    let byte = read-drop pkt c.pos 0 rest at in
    let inside : ltb c.pos (length pkt) ≡ true =
      ground (arith, length-drop {0} c.pos pkt, ap length at) in
    (c.pos, rw (inside, byte) refl)
name_loop-encode (suc fuel) pkt offset name_max c (l ∷ ls) rest short enough labels at fits behind =
    let at' : drop c.pos pkt ≡ length l ∷ (l ++ (encode ls ++ rest)) =
      at ∙ ap (λ t. length l ∷ t) (append_assoc l (encode ls) rest) in
    let byte = read-drop pkt c.pos (length l) _ at' in
    let inside : ltb c.pos (length pkt) ≡ true =
      ground (arith, length-drop {0} c.pos pkt, ap length at) in
    let not_end : (length l == 0) ≡ false = ground arith in
    let no_pointer : (length l / 64 % 4 == 3) ≡ false = ground arith in
    let c' : Cursor = record c {
      consumed = if c.jumped then c.consumed else u16 (c.pos + 1 + length l - offset);
      pos = c.pos + 1 + length l;
      name = dotted c.name ++ l;
    } in
    let round : append_label pkt offset name_max (length l) c ≡ ok (again c') =
      append_label_lem pkt offset name_max c l (encode ls ++ rest) short at' labels.1
        (omega (arith, length-spell ls (dotted c.name ++ l) labels.2)) in
    let e : c.pos + 1 + length l ≡ c.pos + suc (length l) = omega arith in
    let next : drop (c.pos + 1 + length l) pkt ≡ encode ls ++ rest =
      ap (λ i. drop i pkt) e
      ∙ (drop-add pkt c.pos (suc (length l))
          ∙ (ap (drop (suc (length l))) at' ∙ drop-append l (encode ls ++ rest))) in
    let (pos, eq) =
      name_loop-encode fuel pkt offset name_max c' ls rest short (omega arith) labels.2 next fits
        (λ j. omega (arith, behind j)) in
    elim (Bool-cases c.jumped) [
      | inl j ↦ (pos, rw (inside, byte, not_end, no_pointer, round, eq, j) refl)
      | inr j ↦ (
        pos,
        ground (
          arith,
          inside,
          byte,
          not_end,
          no_pointer,
          round,
          eq,
          j,
          behind j,
          length-append {0} l (encode ls),
        ),
      )
    ]

-- A name in plain wire form, of labels of 1 to 63 bytes whose text with its final zero fits the buffer, is
-- read as the text of its labels with dots between them, and as many bytes are consumed as it has.
pub parse_name-encode :
    (pkt : List ℕ) (offset name_max : ℕ) (ls : List (List ℕ)) (rest : List ℕ)
    → length pkt < 65536
    → AreLabels ls
    → drop offset pkt ≡ encode ls ++ rest
    → length (spell [] ls) < name_max
    → parse_name pkt offset name_max ≡ ok (length (encode ls), spell [] ls)
unfolding parse_name
parse_name-encode pkt offset name_max ls rest short labels at fits =
    let start : Cursor = record {
      consumed = 0;
      pos = offset;
      name = [];
      jumped = false;
      jump_count = 0;
    } in
    let (pos, eq) =
      name_loop-encode (name_max + 130) pkt offset name_max start ls rest short
        (omega (arith, length-spell ls [] labels)) labels at fits (λ _. omega arith) in
    let room : ltb 0 name_max ≡ true = lt→ltb 0 name_max (omega arith) in
    let fit : ltb (length (spell [] ls)) name_max ≡ true =
      lt→ltb (length (spell [] ls)) name_max fits in
    let n : u16 (offset - offset + length (encode ls)) ≡ length (encode ls) =
      omega (arith, length-drop {0} offset pkt, ap length at, length-append {0} (encode ls) rest) in
    rw (room, eq, fit, n) refl

pub length-encode : (ls : List (List ℕ)) → 1 ≤ length (encode ls)
unfolding encode
length-encode [] = omega arith
length-encode (l ∷ ls) = omega arith

-- The two bytes of a compression pointer.
abbrev pub pointer : ℕ → List ℕ
pointer target = (192 + target / 256) ∷ (target % 256) ∷ []

-- A compression pointer to such a name is read as the same text, and two bytes are consumed.
pub parse_name-pointer :
    (pkt : List ℕ) (offset name_max target : ℕ) (ls : List (List ℕ)) (rest rest' : List ℕ)
    → length pkt < 65536
    → AreLabels ls
    → drop offset pkt ≡ pointer target ++ rest'
    → target < 16384
    → drop target pkt ≡ encode ls ++ rest
    → length (spell [] ls) < name_max
    → parse_name pkt offset name_max ≡ ok (2, spell [] ls)
unfolding parse_name name_loop name_round follow
parse_name-pointer pkt offset name_max target ls rest rest' short labels here small at fits =
    let start : Cursor = record {
      consumed = 0;
      pos = offset;
      name = [];
      jumped = false;
      jump_count = 0;
    } in
    let there : Cursor = record {
      consumed = 2;
      pos = target;
      name = [];
      jumped = true;
      jump_count = 1;
    } in
    let (pos, eq) =
      name_loop-encode (name_max + 129) pkt offset name_max there ls rest short
        (omega (arith, length-spell ls [] labels)) labels at fits (λ e. ground arith) in
    let hi = read-drop pkt offset (192 + target / 256) _ here in
    let lo =
      read-drop pkt (offset + 1) (target % 256) rest' (drop-add pkt offset 1 ∙ ap (drop 1) here) in
    let n : length pkt - offset ≡ 2 + length rest' =
      omega (arith, length-drop {0} offset pkt, ap length here) in
    let inside : ltb offset (length pkt) ≡ true = lt→ltb offset (length pkt) (omega arith) in
    let inside' : ltb (offset + 1) (length pkt) ≡ true =
      lt→ltb (offset + 1) (length pkt) (omega arith) in
    let not_end : (192 + target / 256 == 0) ≡ false = ground arith in
    let is_pointer : ((192 + target / 256) / 64 % 4 == 3) ≡ true =
      (==_iff ((192 + target / 256) / 64 % 4) 3).1 (omega arith) in
    let leads : (192 + target / 256) % 64 * 256 + target % 256 ≡ target = omega arith in
    let two : u16 (offset - offset + 2) ≡ 2 = omega arith in
    let inside'' : ltb target (length pkt) ≡ true = lt→ltb target (length pkt) (
      omega (
        arith,
        length-drop {0} target pkt,
        ap length at,
        length-append {0} (encode ls) rest,
        length-encode ls,
      )) in
    let room : ltb 0 name_max ≡ true = lt→ltb 0 name_max (omega arith) in
    let fit : ltb (length (spell [] ls)) name_max ≡ true =
      lt→ltb (length (spell [] ls)) name_max fits in
    let fuel : name_max + 130 ≡ suc (name_max + 129) = omega arith in
    rw (room, fuel, inside, hi, not_end, is_pointer, inside', lo, leads, two, inside'', eq, fit)
      refl
