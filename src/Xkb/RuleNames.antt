-- ===== src/Xkb/RuleNames.antt =====
-- The constructor `xkb-rule-names` over the sequences of its arguments.
use janetland.Prelude.Bits.{argc_even}
use janetland.Prelude.{
  false, ◌++◌, ◌%◌, ◌≡◌, refl, Bool, true, ◌||◌, Option, none, some, List, [], ◌∷◌, String, str_eq,
  if◌then◌else◌, arith, ◌⊎◌, inl, inr, eq_iff, All,
}
use janetland.Janet.{argc, IsPanic, bind-IsPanic, Janet, Value, nil, string, keyword, ok}
use janetland.Xkb.{
  cfun_xkb_rule_names, empty_names, XkbRuleNames, rule_names_member, rule_names_loop,
  get_xkb_rule_names_member,
}

abbrev pub text_value : Option String → Value
text_value none = nil
text_value (some s) = string s

-- `:name value :name value ...`
abbrev pub arguments : List (String × Option String) → List Value
arguments [] = []
arguments ((kw, s) ∷ ps) = keyword kw ∷ text_value s ∷ arguments ps

-- The value of the last pair with the name, and `s` where no pair has it.
abbrev pub last_of : String → List (String × Option String) → Option String → Option String
last_of name [] s = s
last_of name ((kw, t) ∷ ps) s = last_of name ps (if str_eq kw name then t else s)

abbrev pub names_of : List (String × Option String) → XkbRuleNames → XkbRuleNames
names_of ps names = record {
  rules = last_of "rules" ps names.rules;
  model = last_of "model" ps names.model;
  layout = last_of "layout" ps names.layout;
  variant = last_of "variant" ps names.variant;
  options = last_of "options" ps names.options;
}

abbrev pub is_member : String → Bool
is_member kw =
    str_eq kw "rules"
    || str_eq kw "model"
    || str_eq kw "layout"
    || str_eq kw "variant"
    || str_eq kw "options"

-- Janet hands the text out: it has no zero byte.
abbrev pub IsText : Janet → Option String → Type 0
IsText J none = Unit
IsText J (some s) = J.getcstring (string s) ≡ ok s

member_cases :
    (kw : String)
    → is_member kw ≡ true
    → (kw ≡ "rules") ⊎ (kw ≡ "model") ⊎ (kw ≡ "layout") ⊎ (kw ≡ "variant") ⊎ (kw ≡ "options")
member_cases kw h = ground (
  arith,
  eq_iff kw "rules",
  eq_iff kw "model",
  eq_iff kw "layout",
  eq_iff kw "variant",
  eq_iff kw "options",
)

get_member-text_value :
    (J : Janet) (s : Option String) → IsText J s → get_xkb_rule_names_member J (text_value s) ≡ ok s
unfolding get_xkb_rule_names_member
get_member-text_value J none h = refl
get_member-text_value J (some s) h = rw h refl

member-names_of :
    (kw : String) (s : Option String) (names : XkbRuleNames)
    → is_member kw ≡ true
    → (write : Option String → XkbRuleNames → XkbRuleNames) × (rule_names_member kw ≡ ok write)
      × (write s names ≡ names_of ((kw, s) ∷ []) names)
unfolding rule_names_member
member-names_of kw s names h = elim (member_cases kw h) [
  | inl e ↦ rw e (_, refl, refl)
  | inr (inl e) ↦ rw e (_, refl, refl)
  | inr (inr (inl e)) ↦ rw e (_, refl, refl)
  | inr (inr (inr (inl e))) ↦ rw e (_, refl, refl)
  | inr (inr (inr (inr e))) ↦ rw e (_, refl, refl)
]

rule_names_loop-names_of :
    (J : Janet) (ps : List (String × Option String)) (names : XkbRuleNames)
    → All (λ p. (is_member p.0 ≡ true) × IsText J p.1) ps
    → rule_names_loop J (arguments ps) names ≡ ok (names_of ps names)
unfolding rule_names_loop
rule_names_loop-names_of J [] names hs = refl
rule_names_loop-names_of J ((kw, s) ∷ ps) names ((known, text), hs) =
    let k = J.getkeyword-IsAccessor.accepts (keyword kw) kw refl in
    let (write, e, written) = member-names_of kw s names known in
    rw
      (
        k,
        e,
        get_member-text_value J s text,
        written,
        rule_names_loop-names_of J ps (names_of ((kw, s) ∷ []) names) hs,
      )
      refl

arguments_even : (ps : List (String × Option String)) → argc (arguments ps) % 2 ≡ 0
arguments_even [] = refl
arguments_even (p ∷ ps) = omega (arith, arguments_even ps)

-- On keywords of the five members with nil or a text behind each, `xkb-rule-names` returns: each member
-- is the value of the last pair of its name, and NULL where there is none.
pub cfun_xkb_rule_names-names_of :
    (J : Janet) (ps : List (String × Option String))
    → All (λ p. (is_member p.0 ≡ true) × IsText J p.1) ps
    → cfun_xkb_rule_names J (arguments ps) ≡ ok (names_of ps empty_names)
unfolding cfun_xkb_rule_names
cfun_xkb_rule_names-names_of J ps hs =
    rw
      (
        (argc_even (argc (arguments ps))).0 (arguments_even ps),
        rule_names_loop-names_of J ps empty_names hs,
      )
      refl

unknown-IsPanic : (kw : String) → is_member kw ≡ false → IsPanic (rule_names_member kw)
unfolding rule_names_member
unknown-IsPanic kw h = ground arith

rule_names_loop_unknown :
    (J : Janet) (ps qs : List (String × Option String)) (kw : String) (s : Option String)
    (names : XkbRuleNames)
    → All (λ p. (is_member p.0 ≡ true) × IsText J p.1) ps
    → is_member kw ≡ false
    → IsPanic (rule_names_loop J (arguments (ps ++ (kw, s) ∷ qs)) names)
unfolding rule_names_loop
rule_names_loop_unknown J [] qs kw s names hs unknown =
    let k = J.getkeyword-IsAccessor.accepts (keyword kw) kw refl in
    rw k (bind-IsPanic (rule_names_member kw) _ (unknown-IsPanic kw unknown))
rule_names_loop_unknown J ((n, t) ∷ ps) qs kw s names ((known, text), hs) unknown =
    let k = J.getkeyword-IsAccessor.accepts (keyword n) n refl in
    let (write, e, written) = member-names_of n t names known in
    rw (k, e, get_member-text_value J t text)
      (rule_names_loop_unknown J ps qs kw s (write t names) hs unknown)

-- A pair of any other name makes `xkb-rule-names` panic, whatever comes behind it.
pub cfun_xkb_rule_names_unknown :
    (J : Janet) (ps qs : List (String × Option String)) (kw : String) (s : Option String)
    → All (λ p. (is_member p.0 ≡ true) × IsText J p.1) ps
    → is_member kw ≡ false
    → IsPanic (cfun_xkb_rule_names J (arguments (ps ++ (kw, s) ∷ qs)))
unfolding cfun_xkb_rule_names
cfun_xkb_rule_names_unknown J ps qs kw s hs unknown =
    rw ((argc_even (argc (arguments (ps ++ (kw, s) ∷ qs)))).0 (arguments_even (ps ++ (kw, s) ∷ qs)))
      (rule_names_loop_unknown J ps qs kw s empty_names hs unknown)
