-- ===== src/Email/Templates/Safe.antt =====
-- What the data of a mail can put into its HTML.
use chronos_appointment_sche.Base.{
  ℕ, ◌≡◌, refl, Bool, Option, none, some, List, [], ◌∷◌, ◌++◌, ◌==◌, ◌||◌, if◌then◌else◌, arith,
  Bool-cases, inl, inr,
}
use chronos_appointment_sche.Email.Token.{Text}
use chronos_appointment_sche.Email.Gateway.{codes}
use chronos_appointment_sche.Email.Templates.{
  escape_html, Piece, lit, line, escaped, raw, piece_text, render, Mail, mail_of, trim, Locale,
}
use chronos_appointment_sche.Email.Templates.Escape.{
  entity, escape_once, by_entity, escape_html-escape_once,
}
use chronos_appointment_sche.Email.Templates.Reminder.{
  ReminderEmailData, render_reminder_email, reminder_html, reminder_text, time_label,
}
use chronos_appointment_sche.Email.Templates.Cancellation.{
  CancellationEmailData, render_cancellation_email, cancellation_html, cancellation_text,
}
use chronos_appointment_sche.Email.Templates.Confirmation.{
  ConfirmationEmailData, render_confirmation_email, confirmation_html, confirmation_text,
}

-- The characters that open and close tags and attributes.
abbrev pub is_markup : ℕ → Bool
is_markup c = c == 60 || c == 62 || c == 34 || c == 39

unfoldable pub markup : Text → Text
markup [] = []
markup (c ∷ s) = if is_markup c then c ∷ markup s else markup s

markup-++ : (s t : Text) → markup (s ++ t) ≡ markup s ++ markup t
unfolding markup
markup-++ [] t = refl
markup-++ (c ∷ s) t = elim (Bool-cases (is_markup c)) [
  | inl e ↦ rw (e, markup-++ s t) refl
  | inr e ↦ rw (e, markup-++ s t) refl
]

markup-entity : (c : ℕ) → markup (entity c) ≡ []
unfolding markup
markup-entity c =
    by_entity (λ k. markup (entity k) ≡ []) refl refl refl refl refl (λ k a b d e f. ground arith) c

markup-escape_once : (s : Text) → markup (escape_once s) ≡ []
unfolding escape_once markup
markup-escape_once [] = refl
markup-escape_once (c ∷ s) =
    rw (markup-++ (entity c) (escape_once s), markup-entity c, markup-escape_once s) refl

-- Escaped text has none of them.
pub markup-escape_html : (s : Text) → markup (escape_html s) ≡ []
markup-escape_html s = rw (escape_html-escape_once s) (markup-escape_once s)

-- The parts that a template writes itself.
abbrev literals : List Piece → List Piece
literals [] = []
literals (lit s ∷ ps) = lit s ∷ literals ps
literals (line s ∷ ps) = line s ∷ literals ps
literals (escaped s ∷ ps) = literals ps
literals (raw s ∷ ps) = literals ps

-- No text that is put in as it is has any of them.
abbrev Quiet : List Piece → Type 0
Quiet [] = Unit {0}
Quiet (raw s ∷ ps) = (markup s ≡ []) × Quiet ps
Quiet (p ∷ ps) = Quiet ps

markup-render : (ps : List Piece) → Quiet ps → markup (render ps) ≡ markup (render (literals ps))
unfolding render
markup-render [] q = refl
markup-render (lit s ∷ ps) q =
    rw
      (
        markup-++ (codes s) (render ps),
        markup-++ (codes s) (render (literals ps)),
        markup-render ps q,
      )
      refl
markup-render (line s ∷ ps) q =
    rw
      (
        markup-++ (piece_text (line s)) (render ps),
        markup-++ (piece_text (line s)) (render (literals ps)),
        markup-render ps q,
      )
      refl
markup-render (escaped s ∷ ps) q =
    rw (markup-++ (escape_html s) (render ps), markup-escape_html s, markup-render ps q) refl
markup-render (raw s ∷ ps) (e, q) = rw (markup-++ s (render ps), e, markup-render ps q) refl

-- Two fillings of one template.
same_markup :
    (ps qs : List Piece)
    → literals ps ≡ literals qs
    → Quiet ps
    → Quiet qs
    → markup (render ps) ≡ markup (render qs)
same_markup ps qs e p q = rw (markup-render ps p, markup-render qs q, e) refl

-- A locale that writes no such character into a date.
abbrev pub IsPlain : Locale → Type 0
IsPlain locale = (date zone s : Text) → locale date zone ≡ some s → markup s ≡ []

label-plain : (offset : ℕ) → markup (codes (time_label offset)) ≡ []
unfolding markup
label-plain offset = elim (Bool-cases (offset == 1440)) [ inl e ↦ rw e refl | inr e ↦ rw e refl ]

mail_of-html :
    (html text : Text → Text) (o : Option Text) (m : Mail)
    → mail_of html text o ≡ some m
    → (t : Text) × (o ≡ some t) × (m.html ≡ html t)
mail_of-html html text none m e = ground arith
mail_of-html html text (some t) m e = (t, refl, ground arith)

-- Two mails of one template, whose parts that are not escaped are quiet for dates as they come.
mail-markup :
    (html html' : Text → List Piece) (text text' : Text → Text) (o o' : Option Text) (m m' : Mail)
    → ((t t' : Text) → literals (html t) ≡ literals (html' t'))
    → ((t : Text) → o ≡ some t → Quiet (html t))
    → ((t : Text) → o' ≡ some t → Quiet (html' t))
    → mail_of (λ t. render (html t)) text o ≡ some m
    → mail_of (λ t. render (html' t)) text' o' ≡ some m'
    → markup m.html ≡ markup m'.html
mail-markup html html' text text' o o' m m' same quiet quiet' e e' =
    let (t, f, h) = mail_of-html (λ t. render (html t)) text o m e in
    let (t', f', h') = mail_of-html (λ t. render (html' t)) text' o' m' e' in
    rw (h, h') (same_markup (html t) (html' t') (same t t') (quiet t f) (quiet' t' f'))

module _ (locale : Locale) (plain : IsPlain locale) where
  -- Two mails of renderReminderEmail, for any data, have the same tags and quotes in the same
  -- order, if the locale writes none into a date: no field of the data can add markup.
  pub render_reminder_email-markup :
      (d d' : ReminderEmailData) (m m' : Mail)
      → render_reminder_email locale d ≡ some m
      → render_reminder_email locale d' ≡ some m'
      → markup m.html ≡ markup m'.html
  unfolding render_reminder_email
  render_reminder_email-markup d d' m m' =
      mail-markup (reminder_html d) (reminder_html d') (λ t. trim (render (reminder_text d t)))
        (λ t. trim (render (reminder_text d' t))) (locale d.appointment_date d.client_timezone)
        (locale d'.appointment_date d'.client_timezone) m m' (λ t t'. refl)
        (λ t f.
          (label-plain d.offset_minutes, (plain d.appointment_date d.client_timezone t f, tt)))
        (λ t f.
          (label-plain d'.offset_minutes, (plain d'.appointment_date d'.client_timezone t f, tt)))

  -- The same of renderCancellationEmail.
  pub render_cancellation_email-markup :
      (d d' : CancellationEmailData) (m m' : Mail)
      → render_cancellation_email locale d ≡ some m
      → render_cancellation_email locale d' ≡ some m'
      → markup m.html ≡ markup m'.html
  unfolding render_cancellation_email
  render_cancellation_email-markup d d' m m' =
      mail-markup (cancellation_html d) (cancellation_html d')
        (λ t. trim (render (cancellation_text d t))) (λ t. trim (render (cancellation_text d' t)))
        (locale d.appointment_date d.client_timezone)
        (locale d'.appointment_date d'.client_timezone) m m' (λ t t'. refl)
        (λ t f. (
          plain d.appointment_date d.client_timezone t f,
          (plain d.appointment_date d.client_timezone t f, tt),
        ))
        (λ t f. (
          plain d'.appointment_date d'.client_timezone t f,
          (plain d'.appointment_date d'.client_timezone t f, tt),
        ))

  -- The same of renderConfirmationEmail.
  pub render_confirmation_email-markup :
      (d d' : ConfirmationEmailData) (m m' : Mail)
      → render_confirmation_email locale d ≡ some m
      → render_confirmation_email locale d' ≡ some m'
      → markup m.html ≡ markup m'.html
  unfolding render_confirmation_email
  render_confirmation_email-markup d d' m m' =
      mail-markup (confirmation_html d) (confirmation_html d')
        (λ t. trim (render (confirmation_text d t))) (λ t. trim (render (confirmation_text d' t)))
        (locale d.appointment_date d.client_timezone)
        (locale d'.appointment_date d'.client_timezone) m m' (λ t t'. refl)
        (λ t f. (plain d.appointment_date d.client_timezone t f, tt))
        (λ t f. (plain d'.appointment_date d'.client_timezone t f, tt))
