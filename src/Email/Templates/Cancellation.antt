-- ===== src/Email/Templates/Cancellation.antt =====
-- apps/api/src/email/email.templates.ts: renderCancellationEmail, its texts line by line. The constant
-- `subject` is computed there and not returned; it is left out.
use chronos_appointment_sche.Base.{Option, List, [], ◌∷◌}
use chronos_appointment_sche.Email.Token.{Text}
use chronos_appointment_sche.Email.Templates.{
  Piece, lit, line, escaped, raw, Mail, mail_of, render, trim, Locale,
}

pub record CancellationEmailData : Type 0 where
  pub provider_name : Text
  pub appointment_date : Text
  pub client_timezone : Text
  pub booking_id : Text

-- The template literal of `html`.
abbrev pub cancellation_html : CancellationEmailData → (date_time : Text) → List Piece
cancellation_html d date_time =
    line ""
    ∷ line
        "    <div style=\"font-family: -apple-system, BlinkMacSystemFont, 'Segoe UI', Roboto, sans-serif; max-width: 600px; margin: 0 auto; padding: 20px;\">"
    ∷ line
        "      <div style=\"background: linear-gradient(135deg, #ef4444, #dc2626); padding: 30px; border-radius: 16px 16px 0 0; color: white;\">"
    ∷ line "        <h1 style=\"margin: 0; font-size: 24px;\">Appointment Cancelled</h1>"
    ∷ line
        "        <p style=\"margin: 10px 0 0 0; opacity: 0.9;\">Your appointment has been cancelled</p>"
    ∷ line "      </div>"
    ∷ line ""
    ∷ line
        "      <div style=\"background: #f8fafc; padding: 30px; border-radius: 0 0 16px 16px; border: 1px solid #e2e8f0;\">"
    ∷ line "        <p style=\"font-size: 16px; margin-bottom: 20px;\">"
    ∷ lit "          Hi, your appointment with <strong>"
    ∷ escaped d.provider_name
    ∷ lit "</strong> on <strong>"
    ∷ raw date_time
    ∷ line "</strong> has been cancelled."
    ∷ line "        </p>"
    ∷ line ""
    ∷ line
        "        <div style=\"background: white; border: 1px solid #e2e8f0; border-radius: 12px; padding: 20px; margin-bottom: 20px;\">"
    ∷ line "          <table style=\"width: 100%; border-collapse: collapse;\">"
    ∷ line "            <tr>"
    ∷ line
        "              <td style=\"padding: 8px 0; color: #64748b; font-size: 14px;\">Date &amp; Time</td>"
    ∷ lit "              <td style=\"padding: 8px 0; font-size: 14px;\">"
    ∷ raw date_time
    ∷ line "</td>"
    ∷ line "            </tr>"
    ∷ line "            <tr>"
    ∷ line
        "              <td style=\"padding: 8px 0; color: #64748b; font-size: 14px;\">Booking ID</td>"
    ∷ lit "              <td style=\"padding: 8px 0; font-size: 14px; font-family: monospace;\">"
    ∷ escaped d.booking_id
    ∷ line "</td>"
    ∷ line "            </tr>"
    ∷ line "          </table>"
    ∷ line "        </div>"
    ∷ line ""
    ∷ line "        <p style=\"font-size: 14px; color: #64748b;\">"
    ∷ line "          If this was a mistake, you can reschedule your appointment."
    ∷ line "        </p>"
    ∷ line "      </div>"
    ∷ line "    </div>"
    ∷ lit "  "
    ∷ []

-- The template literal of `text`.
abbrev pub cancellation_text : CancellationEmailData → (date_time : Text) → List Piece
cancellation_text d date_time =
    lit "Appointment Cancelled: Your appointment with "
    ∷ raw d.provider_name
    ∷ lit " on "
    ∷ raw date_time
    ∷ line " has been cancelled."
    ∷ line ""
    ∷ lit "Booking ID: "
    ∷ raw d.booking_id
    ∷ line ""
    ∷ line ""
    ∷ lit "If this was a mistake, you can reschedule your appointment."
    ∷ []

unfoldable pub render_cancellation_email : Locale → CancellationEmailData → Option Mail
render_cancellation_email locale d =
    mail_of (λ t. render (cancellation_html d t)) (λ t. trim (render (cancellation_text d t)))
      (locale d.appointment_date d.client_timezone)
