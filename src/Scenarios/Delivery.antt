-- ===== src/Scenarios/Delivery.antt =====
-- A wire that carries texts, and a chunk of a session that is sent over it in both ways.
use gothrough.Base.{refl, Option, none, some, List, [], ◌++◌, length, Text, codes}
use gothrough.Upload.Requests.{
  FormValue, Body, plain_blob, form_data, ParamValue, ChunkRequest, base_url, lookup, written,
}
use gothrough.Server.{Context}
use gothrough.Server.Delivery.{Wire}

abbrev sent_type : Option Text → Body Text → Text
sent_type (some value) body = value
sent_type none (plain_blob chunk) = []
sent_type none (form_data fields) = codes "multipart/form-data; boundary=x"

abbrev query_value : Option ParamValue → Text
query_value (some value) = written value
query_value none = []

abbrev field_value : Option (FormValue Text) → Text
field_value (some (FormValue.text value)) = value
field_value _ = []

abbrev file_value : Option (FormValue Text) → Option Text
file_value (some (FormValue.blob chunk)) = some chunk
file_value _ = none

abbrev fields_of : Body Text → List (Text × FormValue Text)
fields_of (form_data fields) = fields
fields_of (plain_blob chunk) = []

abbrev bytes_of : Body Text → Text
bytes_of (plain_blob chunk) = chunk
bytes_of (form_data fields) = []

abbrev received : ChunkRequest Text → Context Text
received r = record {
  path = base_url ++ r.url;
  content_type = sent_type (lookup (codes "Content-Type") r.headers) r.body;
  content_length = length (bytes_of r.body);
  query = λ key. query_value (lookup key r.params);
  post_form = λ limit key. field_value (lookup key (fields_of r.body));
  form_file = λ limit key. file_value (lookup key (fields_of r.body));
  request_body = λ limit. bytes_of r.body;
}

abbrev texts : Wire Text
texts = record {
  size = length;
  received = received;
  sends_path = λ r. refl;
  sends_header = λ r chunk value e given. rw given refl;
  sends_query = λ r key value e. rw e refl;
  sends_length = λ r chunk e. rw e refl;
  sends_body = λ r chunk limit e fits. rw e refl;
  types_form = λ r fields e none'. rw (none', e) refl;
  reads_field = λ r fields limit key value e form fits has. rw (e, has) refl;
  reads_file = λ r fields limit key value e form fits has. rw (e, has) refl;
}
