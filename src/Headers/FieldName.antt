-- ===== src/Headers/FieldName.antt =====
-- Names of header fields, of web/restinio/restinio/http_headers.hpp.
pub mod Printed
pub mod Candidates
pub mod Suits
pub mod Agreement
use prj.Prelude.{ℕ, ◌≡◌, refl, Bytes, List, [], ◌∷◌, codes, length, if◌then◌else◌}
use prj.Headers.FieldId.{HttpField, field_unspecified, date}
use prj.Headers.Caseless.{equal_caseless}
use Printed.{field_to_string}
use Candidates.{candidates}

-- The checks of one case: the first candidate that is equal but for the case of its letters.
unfoldable pub check_for_field : Bytes → List (HttpField × Bytes) → HttpField
check_for_field name [] = field_unspecified
check_for_field name ((field, candidate) ∷ others) =
    if equal_caseless (length name) name candidate then field else check_for_field name others

unfoldable pub string_to_field : Bytes → HttpField
unfolding check_for_field candidates equal_caseless
string_to_field name = check_for_field name (candidates (length name))
