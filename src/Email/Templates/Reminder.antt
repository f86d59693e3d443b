-- ===== src/Email/Templates/Reminder.antt =====
-- apps/api/src/email/email.templates.ts: renderReminderEmail, its texts line by line. The constant
-- `subject` is computed there and not returned; it is left out.
use chronos_appointment_sche.Base.{ℕ, ◌==◌, Option, List, [], ◌∷◌, if◌then◌else◌}
use Prim.Native.String.{String}
use chronos_appointment_sche.Email.Token.{Text}
use chronos_appointment_sche.Email.Gateway.{codes}
use chronos_appointment_sche.Email.Templates.{
  Piece, lit, line, escaped, raw, Mail, mail_of, render, trim, Locale,
}

pub record ReminderEmailData : Type 0 where
  pub to : Text
  pub client_name : Text
  pub provider_name : Text
  pub appointment_date : Text
  pub appointment_time : Text
  pub client_timezone : Text
  pub offset_minutes : ℕ
  pub booking_id : Text
  pub unsubscribe_url : Text

abbrev pub time_label : ℕ → String
time_label offset = if offset == 1440 then "24-hour" else "1-hour"

-- The template literal of `html`.
abbrev pub reminder_html : ReminderEmailData → (date_time : Text) → List Piece
reminder_html d date_time =
    line ""
    ∷ line
        "    <div style=\"font-family: -apple-system, BlinkMacSystemFont, 'Segoe UI', Roboto, sans-serif; max-width: 600px; margin: 0 auto; padding: 20px;\">"
    ∷ line
        "      <div style=\"background: linear-gradient(135deg, #6366f1, #4f46e5); padding: 30px; border-radius: 16px 16px 0 0; color: white;\">"
    ∷ line "        <h1 style=\"margin: 0; font-size: 24px;\">Appointment Reminder</h1>"
    ∷ lit "        <p style=\"margin: 10px 0 0 0; opacity: 0.9;\">"
    ∷ raw (codes (time_label d.offset_minutes))
    ∷ line " notice</p>"
    ∷ line "      </div>"
    ∷ line ""
    ∷ line
        "      <div style=\"background: #f8fafc; padding: 30px; border-radius: 0 0 16px 16px; border: 1px solid #e2e8f0;\">"
    ∷ line "        <p style=\"font-size: 16px; margin-bottom: 20px;\">"
    ∷ lit "          Hi "
    ∷ escaped d.client_name
    ∷ line ","
    ∷ line "        </p>"
    ∷ line ""
    ∷ line "        <p style=\"font-size: 16px; margin-bottom: 20px;\">"
    ∷ line "          This is a reminder for your upcoming appointment with"
    ∷ lit "          <strong>"
    ∷ escaped d.provider_name
    ∷ line "</strong>."
    ∷ line "        </p>"
    ∷ line ""
    ∷ line
        "        <div style=\"background: white; border: 1px solid #e2e8f0; border-radius: 12px; padding: 20px; margin-bottom: 20px;\">"
    ∷ line "          <table style=\"width: 100%; border-collapse: collapse;\">"
    ∷ line "            <tr>"
    ∷ line
        "              <td style=\"padding: 8px 0; color: #64748b; font-size: 14px;\">Date &amp; Time</td>"
    ∷ lit "              <td style=\"padding: 8px 0; font-size: 14px; font-weight: 600;\">"
    ∷ raw date_time
    ∷ line "</td>"
    ∷ line "            </tr>"
    ∷ line "            <tr>"
    ∷ line
        "              <td style=\"padding: 8px 0; color: #64748b; font-size: 14px;\">Timezone</td>"
    ∷ lit "              <td style=\"padding: 8px 0; font-size: 14px;\">"
    ∷ escaped d.client_timezone
    ∷ line "</td>"
    ∷ line "            </tr>"
    ∷ line "            <tr>"
    ∷ line
        "              <td style=\"padding: 8px 0; color: #64748b; font-size: 14px;\">Booking ID</td>"
    ∷ lit "              <td style=\"padding: 8px 0; font-size: 14px; font-family: monospace;\">"
    ∷ escaped d.booking_id
    ∷ line "</td>"
    ∷ line "            </tr>"
    ∷ line "          </table>"
    ∷ line "        </div>"
    ∷ line ""
    ∷ line "        <p style=\"font-size: 14px; color: #64748b; margin-bottom: 20px;\">"
    ∷ line
        "          If you no longer need this appointment, please cancel at least 24 hours in advance."
    ∷ line "        </p>"
    ∷ line ""
    ∷ line "        <hr style=\"border: none; border-top: 1px solid #e2e8f0; margin: 20px 0;\" />"
    ∷ line ""
    ∷ line "        <p style=\"font-size: 12px; color: #94a3b8; margin-bottom: 10px;\">"
    ∷ lit "          <a href=\""
    ∷ escaped d.unsubscribe_url
    ∷ line "\" style=\"color: #6366f1; text-decoration: underline;\">"
    ∷ line "            Unsubscribe from appointment reminders"
    ∷ line "          </a>"
    ∷ line "        </p>"
    ∷ line ""
    ∷ line "        <p style=\"font-size: 11px; color: #94a3b8; margin: 0;\">"
    ∷ line
        "          This is an automated reminder from Chronos. Please do not reply to this email."
    ∷ line "        </p>"
    ∷ line "      </div>"
    ∷ line "    </div>"
    ∷ lit "  "
    ∷ []

-- The template literal of `text`.
abbrev pub reminder_text : ReminderEmailData → (date_time : Text) → List Piece
reminder_text d date_time =
    lit "Reminder: Your appointment with "
    ∷ raw d.provider_name
    ∷ lit " is in "
    ∷ raw (codes (time_label d.offset_minutes))
    ∷ line ""
    ∷ line ""
    ∷ lit "Date & Time: "
    ∷ raw date_time
    ∷ line ""
    ∷ lit "Timezone: "
    ∷ raw d.client_timezone
    ∷ line ""
    ∷ lit "Booking ID: "
    ∷ raw d.booking_id
    ∷ line ""
    ∷ line ""
    ∷ line "If you no longer need this appointment, please cancel at least 24 hours in advance."
    ∷ line ""
    ∷ lit "Unsubscribe: "
    ∷ raw d.unsubscribe_url
    ∷ line ""
    ∷ line ""
    ∷ lit "This is an automated reminder from Chronos. Please do not reply to this email."
    ∷ []

unfoldable pub render_reminder_email : Locale → ReminderEmailData → Option Mail
render_reminder_email locale d =
    mail_of (λ t. render (reminder_html d t)) (λ t. trim (render (reminder_text d t)))
      (locale d.appointment_date d.client_timezone)
