-- ===== src/Discovery/Schedule/Reparse.antt =====
-- A schedule as it is reported, fields separated by single spaces, read again.
use omj_agent.Base.{
  ℕ, suc, ◌≡◌, refl, sym, ap, inl, inr, Bool, true, false, not, ◌&&◌, none, List, [], ◌∷◌, ◌++◌,
  arith, append-nil, subst,
}
use omj_agent.Text.{
  Text, codes, is_nil, is_blank, all_of, has_any, lower_rune, has_prefix, to_lower, contains_text,
}
use omj_agent.Text.Trim.{trim_left}
use omj_agent.Text.Split.{break_at, join}
use omj_agent.Discovery.Schedule.{
  CronField, nickname_schedule, five_schedule, cut_field, read_fields, validate, cron_nicknames,
  cron_fields, cron_schedule, minute_field, later_fields,
}
use omj_agent.Discovery.Schedule.Fields.{read_fields-cons, known-nil, cron_schedule-cases}
use omj_agent.Discovery.Schedule.Runes.{is_field_rune, all_lower, validate-runes}

-- A text that is one field.
abbrev pub is_plain : Text → Bool
is_plain t = not (is_nil t) && not (has_any is_blank t)

abbrev pub all_plain : List Text → Bool
all_plain [] = true
all_plain (t ∷ ts) = is_plain t && all_plain ts

abbrev pub all_named : List CronField → Bool
all_named [] = true
all_named (f ∷ fs) = all_lower f.names && all_named fs

break_at-blank :
    (v w : Text) → has_any is_blank v ≡ false → break_at is_blank (v ++ b' ' ∷ w) ≡ (v, b' ' ∷ w)
break_at-blank [] w h = refl
break_at-blank (c ∷ v) w h = ground (arith, h, break_at-blank v w)

break_at-all : (v : Text) → has_any is_blank v ≡ false → break_at is_blank v ≡ (v, [])
break_at-all [] h = refl
break_at-all (c ∷ v) h = ground (arith, h, break_at-all v)

trim_left-plain : (v w : Text) → is_plain v ≡ true → trim_left is_blank (v ++ w) ≡ v ++ w
trim_left-plain [] w h = cc
trim_left-plain (c ∷ v) w h = ground (arith, h)

trim_left-join :
    (ts : List Text)
    → all_plain ts ≡ true
    → trim_left is_blank (join (codes " ") ts) ≡ join (codes " ") ts
trim_left-join [] h = refl
trim_left-join (v ∷ []) h =
    subst (λ t. trim_left is_blank t ≡ t) (append-nil v) (trim_left-plain v [] (ground (arith, h)))
trim_left-join (v ∷ u ∷ ts) h =
    trim_left-plain v (codes " " ++ join (codes " ") (u ∷ ts)) (ground (arith, h))

pub cut_field-join :
    (v : Text) (ts : List Text)
    → all_plain (v ∷ ts) ≡ true
    → cut_field (join (codes " ") (v ∷ ts)) ≡ (v, join (codes " ") ts)
unfolding cut_field
cut_field-join v [] h =
    let plain : is_plain v ≡ true = ground (arith, h) in
    let trimmed : trim_left is_blank v ≡ v = trim_left-join (v ∷ []) h in
    ground (arith, trimmed, break_at-all v (ground (arith, plain)))
cut_field-join v (u ∷ ts) h =
    let more = join (codes " ") (u ∷ ts) in
    let broken : break_at is_blank (v ++ b' ' ∷ more) ≡ (v, b' ' ∷ more) =
      break_at-blank v more (ground (arith, h)) in
    rw
      (
        trim_left-plain v (b' ' ∷ more) (ground (arith, h)),
        broken,
        trim_left-join (u ∷ ts) (ground (arith, h)),
      )
      refl

field-plain : (v : Text) → all_of is_field_rune v ≡ true → has_any is_blank v ≡ false
unfolding is_field_rune lower_rune
field-plain [] h = refl
field-plain (c ∷ v) h = ground (arith, field-plain v)

pub read_fields-plain :
    (i : ℕ) (fs : List CronField) (text : Text) (vs : List Text) (rest : Text)
    → all_named fs ≡ true
    → read_fields i fs text ≡ inr (vs, rest)
    → all_plain vs ≡ true
read_fields-plain i [] text vs rest n h = ground (arith, h)
read_fields-plain i (f ∷ fs) text vs rest n h =
    let r = read_fields-cons i f fs text vs rest h in
    let v = (cut_field text).0 in
    let runes : all_of is_field_rune v ≡ true = validate-runes f (ground (arith, n)) v r.valid in
    let others : all_plain r.others ≡ true =
      read_fields-plain (suc i) fs (cut_field text).1 r.others rest (ground (arith, n)) r.next in
    rw r.first (ground (arith, r.filled, others, field-plain v runes))

read_fields-next :
    (i : ℕ) (f : CronField) (fs : List CronField) (text v text' : Text) (vs : List Text)
    (rest : Text)
    → cut_field text ≡ (v, text')
    → is_nil v ≡ false
    → validate f v ≡ none
    → read_fields (suc i) fs text' ≡ inr (vs, rest)
    → read_fields i (f ∷ fs) text ≡ inr (v ∷ vs, rest)
read_fields-next i f fs text v text' vs rest c e u n = ground (arith, c, e, u, n)

reread :
    (i : ℕ) (fs : List CronField) (text : Text) (vs : List Text) (rest : Text)
    → all_named fs ≡ true
    → read_fields i fs text ≡ inr (vs, rest)
    → read_fields i fs (join (codes " ") vs) ≡ inr (vs, [])
reread i [] text vs rest n h = ground (arith, h)
reread i (f ∷ fs) text vs rest n h =
    let r = read_fields-cons i f fs text vs rest h in
    let others : all_plain r.others ≡ true =
      read_fields-plain (suc i) fs (cut_field text).1 r.others rest (ground (arith, n)) r.next in
    let plain : all_plain ((cut_field text).0 ∷ r.others) ≡ true =
      subst (λ ts. all_plain ts ≡ true) r.first (read_fields-plain i (f ∷ fs) text vs rest n h) in
    let more = reread (suc i) fs (cut_field text).1 r.others rest (ground (arith, n)) r.next in
    subst (λ ws. read_fields i (f ∷ fs) (join (codes " ") ws) ≡ inr (ws, [])) (sym r.first)
      (read_fields-next i f fs _ (cut_field text).0 _ r.others []
        (cut_field-join (cut_field text).0 r.others plain) r.filled r.valid more)

five_schedule-read :
    (text : Text) (vs : List Text) (rest : Text)
    → read_fields 0 cron_fields text ≡ inr (vs, rest)
    → five_schedule text ≡ inr (join (codes " ") vs, rest)
unfolding five_schedule
five_schedule-read text vs rest h = ground (arith, h)

nickname_schedule-known :
    (text : Text)
    → contains_text cron_nicknames (to_lower (cut_field text).0) ≡ true
    → nickname_schedule text ≡ inr (cut_field text)
unfolding nickname_schedule
nickname_schedule-known text h = ground (arith, h)

join-prefix :
    (v : Text) (ts : List Text)
    → is_nil v ≡ false
    → all_of is_field_rune v ≡ true
    → has_prefix (codes "@") (join (codes " ") (v ∷ ts)) ≡ false
unfolding is_field_rune lower_rune
join-prefix [] ts e h = cc
join-prefix (c ∷ v) [] e h = ground (arith, h)
join-prefix (c ∷ v) (u ∷ ts) e h = ground (arith, h)

cut_field-prefix :
    (text : Text)
    → has_prefix (codes "@") text ≡ true
    → has_prefix (codes "@") (cut_field text).0 ≡ true
unfolding cut_field
cut_field-prefix [] h = cc
cut_field-prefix (c ∷ s) h = ground (arith, h)

break_at-before : (t : Text) → has_any is_blank (break_at is_blank t).0 ≡ false
break_at-before [] = refl
break_at-before (c ∷ t) = ground (arith, break_at-before t)

pub cut_field-before : (t : Text) → has_any is_blank (cut_field t).0 ≡ false
unfolding cut_field
cut_field-before t = break_at-before (trim_left is_blank t)

module _ (text schedule rest : Text) (h : cron_schedule text ≡ inr (schedule, rest)) where
  -- A schedule is reported in a form that reads as itself: a line that writes it so, whatever blanks the
  -- original had between the fields, has that schedule and nothing after it.
  pub cron_schedule-schedule : cron_schedule schedule ≡ inr (schedule, [])
  unfolding cron_schedule
  cron_schedule-schedule = elim (cron_schedule-cases text schedule rest h) [
    | inl n ↦
        let nick = (cut_field text).0 in
        let plain : all_plain (nick ∷ []) ≡ true =
          ground (arith, known-nil nick n.known, cut_field-before text) in
        let cut_again : cut_field nick ≡ (nick, []) = cut_field-join nick [] plain in
        rw
          (
            n.nickname,
            cron_schedule,
            cut_field-prefix text n.prefix,
            nickname_schedule-known nick (rw cut_again n.known),
          )
          (ap inr cut_again)
    | inr five ↦
        let r = read_fields-cons 0 minute_field later_fields text five.values rest five.read in
        let again =
          five_schedule-read (join (codes " ") five.values) five.values []
            (reread 0 cron_fields text five.values rest refl five.read) in
        let first = (cut_field text).0 in
        let unprefixed : has_prefix (codes "@") (join (codes " ") five.values) ≡ false =
          rw r.first (
            join-prefix first r.others r.filled (validate-runes minute_field refl first r.valid)) in
        rw (five.joined, cron_schedule, unprefixed) again
  ]
