-- ===== src/Http/Request.antt =====
-- src/GUI/Header.h and src/GUI/Request.h.
use sec_mon.Prelude.{ℕ, List, []}
use sec_mon.Prelude.Text.{Bytes}

pub record Header : Type 0 where
  pub name : Bytes
  pub value : Bytes

-- `Header(name = "", value = "")`.
abbrev pub blank_header : Header
blank_header = record { name = []; value = [] }

-- An `int` version field is kept as its 32-bit pattern.
pub record Request : Type 0 where
  pub method : Bytes
  pub uri : Bytes
  pub http_version_major : ℕ
  pub http_version_minor : ℕ
  pub headers : List Header

-- `request_()` in the constructor of a connection: a value-initialised request.
abbrev pub empty_request : Request
empty_request = record {
  method = [];
  uri = [];
  http_version_major = 0;
  http_version_minor = 0;
  headers = [];
}
