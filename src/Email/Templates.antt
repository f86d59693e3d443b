-- ===== src/Email/Templates.antt =====
-- apps/api/src/email/email.templates.ts: escapeHtml, and what a template literal does with its parts.
-- What toLocaleString makes of a date in a timezone is an argument: it throws where either is
-- invalid. A text is its list of code units.
pub mod Escape
pub mod Reminder
pub mod Cancellation
pub mod Confirmation
pub mod Safe
use Prim.Native.String.{String}
use chronos_appointment_sche.Base.{
  ℕ, Bool, true, false, Option, none, some, List, [], ◌∷◌, ◌++◌, ◌==◌, ◌||◌, leb, ◌&&◌,
  if◌then◌else◌,
}
use chronos_appointment_sche.Email.Token.{Text}
use chronos_appointment_sche.Email.Gateway.{codes}

-- `s.replace(/c/g, with)`
unfoldable pub replace_all : (c : ℕ) → (with : Text) → Text → Text
replace_all c with [] = []
replace_all c with (d ∷ s) =
    if d == c then with ++ replace_all c with s else d ∷ replace_all c with s

-- &, <, >, " and ', one after the other.
unfoldable pub escape_html : Text → Text
unfolding replace_all
escape_html input = replace_all 39 (codes "&#39;") (
    replace_all 34 (codes "&quot;") (
      replace_all 62 (codes "&gt;")
        (replace_all 60 (codes "&lt;") (replace_all 38 (codes "&amp;") input))))

-- The parts of a template literal: its own text, to the end of a line or not, `${escapeHtml(x)}`,
-- and `${x}`.
pub data Piece : Type 0 where
  lit line : String → Piece
  escaped raw : Text → Piece

abbrev pub piece_text : Piece → Text
piece_text (lit s) = codes s
piece_text (line s) = codes s ++ 10 ∷ []
piece_text (escaped s) = escape_html s
piece_text (raw s) = s

unfoldable pub render : List Piece → Text
render [] = []
render (p ∷ ps) = piece_text p ++ render ps

-- White space and line ends, as String.prototype.trim knows them.
abbrev pub is_space : ℕ → Bool
is_space c =
    (leb 9 c && leb c 13)
    || c == 32
    || c == 160
    || c == 5760
    || (leb 8192 c && leb c 8202)
    || c == 8232
    || c == 8233
    || c == 8239
    || c == 8287
    || c == 12288
    || c == 65279

abbrev pub trim_start : Text → Text
trim_start [] = []
trim_start (c ∷ s) = if is_space c then trim_start s else c ∷ s

abbrev pub keep_end : ℕ → Text → Text
keep_end c [] = if is_space c then [] else c ∷ []
keep_end c (d ∷ s) = c ∷ d ∷ s

abbrev pub trim_end : Text → Text
trim_end [] = []
trim_end (c ∷ s) = keep_end c (trim_end s)

abbrev pub trim : Text → Text
trim s = trim_end (trim_start s)

pub record Mail : Type 0 where
  pub html : Text
  pub text : Text

-- `{ html, text: text.trim() }`, unless the date could not be written.
abbrev pub mail_of : (html text : Text → Text) → (date_time : Option Text) → Option Mail
mail_of html text none = none
mail_of html text (some t) = some (record { html = html t; text = text t })

abbrev pub Locale : Type 0
Locale = (date timezone : Text) → Option Text
