-- ===== src/Contracts/Spelling.antt =====
-- Which texts `UuidBytes::parse` accepts.
use eliot_search.Prelude.{
  ℕ, ◌+◌, ◌≡◌, refl, sym, ap, ◌∙◌, Bool, true, false, Option, none, some, ◌∷◌, ◌++◌, arith, Bytes,
  length, take, drop, get_elem?, length-append, length-drop, drop-drop, take_all, not,
  if◌then◌else◌,
}
use eliot_search.Exec.{ok, err}
use eliot_search.Contracts.{
  ContractErrorKind, hex_encode, display, is_dashed, is_byte, compact_from, from_pairs, bind_pairs,
  parse,
}
use eliot_search.Contracts.Kept.{
  take-front, drop-front, get_elem?-drop, hex_encode-from_pairs, split_at, length-before,
  compact_from-behind, last_group-kept, Parsed,
}

-- The five groups of a text with dashes.
record Groups (text : Bytes) : Type 0 where
  first : Bytes
  second : Bytes
  third : Bytes
  fourth : Bytes
  fifth : Bytes
  first_long : length first ≡ 8
  second_long : length second ≡ 4
  third_long : length third ≡ 4
  fourth_long : length fourth ≡ 4
  fifth_long : length fifth ≡ 12
  joined : text ≡ first ++ 45 ∷ (second ++ 45 ∷ (third ++ 45 ∷ (fourth ++ 45 ∷ fifth)))

abbrev digits : {text : Bytes} → Groups text → Bytes
digits g = g.first ++ (g.second ++ (g.third ++ (g.fourth ++ g.fifth)))

compact_from-digits : (text c : Bytes) (g : Groups text) → compact_from 0 text ≡ ok c → c ≡ digits g
compact_from-digits text c g h =
    let (c2, found2, c_is) =
      compact_from-behind 0 8 g.first _ c (omega (arith, g.first_long)) (λ i a b. ground arith) refl
        (ap (compact_from 0) (sym g.joined) ∙ h) in
    let (c3, found3, c2_is) =
      compact_from-behind 9 13 g.second _ c2 (ap (λ n. 9 + n) g.second_long) (λ i a b. ground arith)
        refl found2 in
    let (c4, found4, c3_is) =
      compact_from-behind 14 18 g.third _ c3 (ap (λ n. 14 + n) g.third_long) (λ i a b. ground arith)
        refl found3 in
    let (c5, found5, c4_is) =
      compact_from-behind 19 23 g.fourth _ c4 (ap (λ n. 19 + n) g.fourth_long)
        (λ i a b. ground arith) refl found4 in
    rw (c_is, c2_is, c3_is, c4_is, last_group-kept g.fifth c5 g.fifth_long found5) refl

length-digits : (text : Bytes) (g : Groups text) → length (digits g) ≡ 32
length-digits text g =
    let behind_third : length (g.fourth ++ g.fifth) ≡ 16 =
      omega (arith, length-append g.fourth g.fifth, g.fourth_long, g.fifth_long) in
    let behind_second : length (g.third ++ (g.fourth ++ g.fifth)) ≡ 20 =
      omega (arith, length-append g.third (g.fourth ++ g.fifth), g.third_long) in
    let behind_first : length (g.second ++ (g.third ++ (g.fourth ++ g.fifth))) ≡ 24 =
      omega (arith, length-append g.second (g.third ++ (g.fourth ++ g.fifth)), g.second_long) in
    omega
      (arith, length-append g.first (g.second ++ (g.third ++ (g.fourth ++ g.fifth))), g.first_long)

-- Digits that are cut where they were joined.
display-digits : (text id : Bytes) (g : Groups text) → hex_encode id ≡ digits g → display id ≡ text
unfolding display
display-digits text id g spelled =
    let hex : Bytes = digits g in
    let at_8 : drop 8 hex ≡ g.second ++ (g.third ++ (g.fourth ++ g.fifth)) =
      drop-front 8 g.first _ g.first_long in
    let at_12 : drop 12 hex ≡ g.third ++ (g.fourth ++ g.fifth) =
      sym (drop-drop 8 4 12 hex refl)
      ∙ (ap (drop 4) at_8 ∙ drop-front 4 g.second _ g.second_long) in
    let at_16 : drop 16 hex ≡ g.fourth ++ g.fifth =
      sym (drop-drop 12 4 16 hex refl)
      ∙ (ap (drop 4) at_12 ∙ drop-front 4 g.third _ g.third_long) in
    let at_20 : drop 20 hex ≡ g.fifth =
      sym (drop-drop 16 4 20 hex refl)
      ∙ (ap (drop 4) at_16 ∙ drop-front 4 g.fourth _ g.fourth_long) in
    rw
      (
        spelled,
        at_8,
        at_12,
        at_16,
        at_20,
        take-front 8 g.first (g.second ++ (g.third ++ (g.fourth ++ g.fifth))) g.first_long,
        take-front 4 g.second (g.third ++ (g.fourth ++ g.fifth)) g.second_long,
        take-front 4 g.third (g.fourth ++ g.fifth) g.third_long,
        take-front 4 g.fourth g.fifth g.fourth_long,
        take_all 12 g.fifth (omega (arith, g.fifth_long)),
      )
      (sym g.joined)

is_byte-some : (o : Option ℕ) (n : ℕ) → is_byte o n ≡ true → o ≡ some n
is_byte-some none n h = absurd (cc)
is_byte-some (some m) n h = let same : m ≡ n = ground arith in ap some same

is_dashed-dashes :
    (text : Bytes)
    → is_dashed text ≡ true
    → (length text ≡ 36)
      × (get_elem? text 8 ≡ some 45)
      × (get_elem? text 13 ≡ some 45)
      × (get_elem? text 18 ≡ some 45)
      × (get_elem? text 23 ≡ some 45)
unfolding is_dashed
is_dashed-dashes text h = (
  ground arith,
  is_byte-some (get_elem? text 8) 45 (ground arith),
  is_byte-some (get_elem? text 13) 45 (ground arith),
  is_byte-some (get_elem? text 18) 45 (ground arith),
  is_byte-some (get_elem? text 23) 45 (ground arith),
)

is_dashed-Groups : (text : Bytes) → is_dashed text ≡ true → Groups text
is_dashed-Groups text dashed =
    let (whole, at_8, at_13, at_18, at_23) = is_dashed-dashes text dashed in
    let second : Bytes = drop 9 text in
    let third : Bytes = drop 5 second in
    let fourth : Bytes = drop 5 third in
    let dash_second : get_elem? second 4 ≡ some 45 = get_elem?-drop text 9 4 13 refl ∙ at_13 in
    let dash_third : get_elem? third 4 ≡ some 45 =
      get_elem?-drop second 5 4 9 refl ∙ (get_elem?-drop text 9 9 18 refl ∙ at_18) in
    let dash_fourth : get_elem? fourth 4 ≡ some 45 =
      get_elem?-drop third 5 4 9 refl
      ∙ (get_elem?-drop second 5 9 14 refl ∙ (get_elem?-drop text 9 14 23 refl ∙ at_23)) in
    record {
      first = take 8 text;
      second = take 4 second;
      third = take 4 third;
      fourth = take 4 fourth;
      fifth = drop 5 fourth;
      first_long = length-before text 8 45 at_8;
      second_long = length-before second 4 45 dash_second;
      third_long = length-before third 4 45 dash_third;
      fourth_long = length-before fourth 4 45 dash_fourth;
      fifth_long = omega (
        arith,
        whole,
        length-drop 9 text,
        length-drop 5 second,
        length-drop 5 third,
        length-drop 5 fourth,
      );
      joined =
          split_at text 8 45 at_8
          ∙ ap (λ l. take 8 text ++ 45 ∷ l)
              (split_at second 4 45 dash_second
                ∙ ap (λ l. take 4 second ++ 45 ∷ l)
                    (split_at third 4 45 dash_third
                      ∙ ap (λ l. take 4 third ++ 45 ∷ l) (split_at fourth 4 45 dash_fourth)));
    }

bind_pairs-ok :
    (r : Parsed) (id : Bytes)
    → bind_pairs r ≡ ok id
    → (c : Bytes) × (r ≡ ok c) × (from_pairs c ≡ ok id)
bind_pairs-ok (ok c) id h = (c, refl, h)
bind_pairs-ok (err e) id h = absurd (cc)

unless-ok :
    (b : Bool) (e : ContractErrorKind) (r : Parsed) (id : Bytes)
    → (if not b then err e else r) ≡ ok id
    → (b ≡ true) × (r ≡ ok id)
unless-ok true e r id h = (refl, h)
unless-ok false e r id h = absurd (cc)

-- A text that is parsed is the spelling of the identifier that it is parsed to, which has 16 bytes.
pub display-parse : (text id : Bytes) → parse text ≡ ok id → (display id ≡ text) × (length id ≡ 16)
unfolding parse
display-parse text id h =
    let (dashed, paired) = unless-ok (is_dashed text) _ (bind_pairs (compact_from 0 text)) id h in
    let (c, compact, pairs) = bind_pairs-ok (compact_from 0 text) id paired in
    let g : Groups text = is_dashed-Groups text dashed in
    let c_is : c ≡ digits g = compact_from-digits text c g compact in
    let (spelled, sixteen) =
      hex_encode-from_pairs 16 c id (ap length c_is ∙ length-digits text g) pairs in
    (display-digits text id g (spelled ∙ c_is), sixteen)
