-- ===== src/Tests/Mails.antt =====
-- The texts of mails.
use chronos_appointment_sche.Base.{◌≡◌, refl, some, arith}
use chronos_appointment_sche.Email.Token.{Text}
use chronos_appointment_sche.Email.Gateway.{codes}
use chronos_appointment_sche.Email.Templates.{escape_html, Mail, Locale, render, trim}
use chronos_appointment_sche.Email.Templates.Escape.{unescape_html, unescape_html-escape_html}
use chronos_appointment_sche.Email.Templates.Reminder.{
  ReminderEmailData, reminder_html, reminder_text, render_reminder_email,
}
use chronos_appointment_sche.Email.Templates.Safe.{markup, render_reminder_email-markup}

abbrev evil : Text
evil = codes "<b>\"A&B\"</b>"

escapes : escape_html evil ≡ codes "&lt;b&gt;&quot;A&amp;B&quot;&lt;/b&gt;"
unfolding escape_html
escapes = refl

unescape_html-escape_html_example : unescape_html (escape_html evil) ≡ evil
unescape_html-escape_html_example = unescape_html-escape_html evil

-- A locale that writes one date.
abbrev one_date : Locale
one_date date zone = some (codes "Monday")

abbrev reminder : Text → ReminderEmailData
reminder name = record {
  to = codes "ada@example.com";
  client_name = name;
  provider_name = codes "Bob";
  appointment_date = codes "2026-01-05T10:00:00Z";
  appointment_time = codes "10:00";
  client_timezone = codes "UTC";
  offset_minutes = 1440;
  booking_id = codes "20";
  unsubscribe_url = codes "https://x/u";
}

abbrev mail : Text → Mail
mail name = record {
  html = render (reminder_html (reminder name) (codes "Monday"));
  text = trim (render (reminder_text (reminder name) (codes "Monday")));
}

render_reminder_email-markup_example : markup (mail evil).html ≡ markup (mail (codes "Ada")).html
unfolding render_reminder_email markup
render_reminder_email-markup_example =
    render_reminder_email-markup one_date (λ d z s e. ground arith) (reminder evil)
      (reminder (codes "Ada")) (mail evil) (mail (codes "Ada")) refl refl
