-- ===== src/Payments/Gmail/Body.antt =====
-- The plain text of a Gmail message (`extract_plain_text_body` of
-- src/apps/payments/services/gmail_ingestion_service.py).
pub mod Order
use nance_peer_lend_borrow_p.Prelude.{
  String, Bool, true, false, ◌&&◌, ◌==◌, List, [], ◌∷◌, if◌then◌else◌,
}
use nance_peer_lend_borrow_p.Prelude.Text.{is_empty, begins}

-- A part of a message: `mimeType`, the text under `data` of its body, and its parts. A missing key, like an
-- empty value, is the empty text or no part.
mutual
  pub data Part : Type 0 where
    part : String → String → Parts → Part

  pub data Parts : Type 0 where
    no_parts : Parts
    parts : Part → Parts → Parts

pub record GmailMessage : Type 0 where
  pub data_text : String
  pub message_parts : Parts
  pub snippet : String

-- `a or b` of texts
abbrev pub or_else_text : String → String → String
or_else_text s t = if is_empty s then t else s

-- `lower` is `str.lower`; `decode` is the library's base64 decoding of the padded text, then UTF-8 without
-- what is no UTF-8; it gives the empty text where the library raises.
module _ (lower decode : String → String) where
  -- `_decode_message_part`
  abbrev pub decode_part : String → String
  decode_part data_text = if is_empty data_text then "" else decode data_text

  -- `_extract_text_from_part`, and its loop over the parts
  unfoldable mutual
    unfolding begins

    pub extract_text : Part → String
    extract_text (part mime_type data_text ps) =
        let nested = extract_nested ps in
        if begins (lower mime_type) "text/plain" then decode_part data_text else nested

    pub extract_nested : Parts → String
    extract_nested no_parts = ""
    extract_nested (parts p ps) =
        let text = extract_text p in let rest = extract_nested ps in or_else_text text rest

  pub extract_plain_text_body : GmailMessage → String
  unfolding extract_nested
  extract_plain_text_body m =
      or_else_text (decode_part m.data_text)
        (or_else_text (extract_nested m.message_parts) m.snippet)
