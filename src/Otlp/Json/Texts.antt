-- ===== src/Otlp/Json/Texts.antt =====
-- OtlpJsonSerializer.hpp: its fixed texts, each after its characters.
use log_it_cpp.Base.{[], ◌∷◌}
use log_it_cpp.Record.{Bytes}

-- {"key":"
abbrev pub key_start : Bytes
key_start = 123 ∷ 34 ∷ 107 ∷ 101 ∷ 121 ∷ 34 ∷ 58 ∷ 34 ∷ []

-- ","value":{"stringValue":"
abbrev pub string_value : Bytes
string_value =
    34 ∷ 44 ∷ 34 ∷ 118 ∷ 97 ∷ 108 ∷ 117 ∷ 101 ∷ 34 ∷ 58 ∷ 123 ∷ 34 ∷ 115 ∷ 116 ∷ 114 ∷ 105 ∷ 110
    ∷ 103 ∷ 86 ∷ 97 ∷ 108 ∷ 117 ∷ 101 ∷ 34 ∷ 58 ∷ 34 ∷ []

-- ","value":{"intValue":"
abbrev pub int_value : Bytes
int_value =
    34 ∷ 44 ∷ 34 ∷ 118 ∷ 97 ∷ 108 ∷ 117 ∷ 101 ∷ 34 ∷ 58 ∷ 123 ∷ 34 ∷ 105 ∷ 110 ∷ 116 ∷ 86 ∷ 97 ∷ 108
    ∷ 117 ∷ 101 ∷ 34 ∷ 58 ∷ 34 ∷ []

-- ","value":{"boolValue":
abbrev pub bool_value : Bytes
bool_value =
    34 ∷ 44 ∷ 34 ∷ 118 ∷ 97 ∷ 108 ∷ 117 ∷ 101 ∷ 34 ∷ 58 ∷ 123 ∷ 34 ∷ 98 ∷ 111 ∷ 111 ∷ 108 ∷ 86 ∷ 97
    ∷ 108 ∷ 117 ∷ 101 ∷ 34 ∷ 58 ∷ []

-- ","value":{"doubleValue":
abbrev pub double_value : Bytes
double_value =
    34 ∷ 44 ∷ 34 ∷ 118 ∷ 97 ∷ 108 ∷ 117 ∷ 101 ∷ 34 ∷ 58 ∷ 123 ∷ 34 ∷ 100 ∷ 111 ∷ 117 ∷ 98 ∷ 108
    ∷ 101 ∷ 86 ∷ 97 ∷ 108 ∷ 117 ∷ 101 ∷ 34 ∷ 58 ∷ []

-- "}}
abbrev pub string_end : Bytes
string_end = 34 ∷ 125 ∷ 125 ∷ []

-- }}
abbrev pub plain_end : Bytes
plain_end = 125 ∷ 125 ∷ []

-- true
abbrev pub text_true : Bytes
text_true = 116 ∷ 114 ∷ 117 ∷ 101 ∷ []

-- false
abbrev pub text_false : Bytes
text_false = 102 ∷ 97 ∷ 108 ∷ 115 ∷ 101 ∷ []

-- {"timeUnixNano":"
abbrev pub time_start : Bytes
time_start =
    123 ∷ 34 ∷ 116 ∷ 105 ∷ 109 ∷ 101 ∷ 85 ∷ 110 ∷ 105 ∷ 120 ∷ 78 ∷ 97 ∷ 110 ∷ 111 ∷ 34 ∷ 58 ∷ 34
    ∷ []

-- ","severityText":"
abbrev pub severity_text : Bytes
severity_text =
    34 ∷ 44 ∷ 34 ∷ 115 ∷ 101 ∷ 118 ∷ 101 ∷ 114 ∷ 105 ∷ 116 ∷ 121 ∷ 84 ∷ 101 ∷ 120 ∷ 116 ∷ 34 ∷ 58
    ∷ 34 ∷ []

-- ","severityNumber":
abbrev pub severity_number : Bytes
severity_number =
    34 ∷ 44 ∷ 34 ∷ 115 ∷ 101 ∷ 118 ∷ 101 ∷ 114 ∷ 105 ∷ 116 ∷ 121 ∷ 78 ∷ 117 ∷ 109 ∷ 98 ∷ 101 ∷ 114
    ∷ 34 ∷ 58 ∷ []

-- ,"body":{"stringValue":"
abbrev pub body_start : Bytes
body_start =
    44 ∷ 34 ∷ 98 ∷ 111 ∷ 100 ∷ 121 ∷ 34 ∷ 58 ∷ 123 ∷ 34 ∷ 115 ∷ 116 ∷ 114 ∷ 105 ∷ 110 ∷ 103 ∷ 86
    ∷ 97 ∷ 108 ∷ 117 ∷ 101 ∷ 34 ∷ 58 ∷ 34 ∷ []

-- "},"attributes":[
abbrev pub attributes_start : Bytes
attributes_start =
    34 ∷ 125 ∷ 44 ∷ 34 ∷ 97 ∷ 116 ∷ 116 ∷ 114 ∷ 105 ∷ 98 ∷ 117 ∷ 116 ∷ 101 ∷ 115 ∷ 34 ∷ 58 ∷ 91 ∷ []

-- ]}
abbrev pub attributes_end : Bytes
attributes_end = 93 ∷ 125 ∷ []

-- code.file.path
abbrev pub file_key : Bytes
file_key = 99 ∷ 111 ∷ 100 ∷ 101 ∷ 46 ∷ 102 ∷ 105 ∷ 108 ∷ 101 ∷ 46 ∷ 112 ∷ 97 ∷ 116 ∷ 104 ∷ []

-- code.line.number
abbrev pub line_key : Bytes
line_key =
    99 ∷ 111 ∷ 100 ∷ 101 ∷ 46 ∷ 108 ∷ 105 ∷ 110 ∷ 101 ∷ 46 ∷ 110 ∷ 117 ∷ 109 ∷ 98 ∷ 101 ∷ 114 ∷ []

-- code.function.name
abbrev pub function_key : Bytes
function_key =
    99 ∷ 111 ∷ 100 ∷ 101 ∷ 46 ∷ 102 ∷ 117 ∷ 110 ∷ 99 ∷ 116 ∷ 105 ∷ 111 ∷ 110 ∷ 46 ∷ 110 ∷ 97 ∷ 109
    ∷ 101 ∷ []

-- thread.id
abbrev pub thread_key : Bytes
thread_key = 116 ∷ 104 ∷ 114 ∷ 101 ∷ 97 ∷ 100 ∷ 46 ∷ 105 ∷ 100 ∷ []

-- logit.format
abbrev pub format_key : Bytes
format_key = 108 ∷ 111 ∷ 103 ∷ 105 ∷ 116 ∷ 46 ∷ 102 ∷ 111 ∷ 114 ∷ 109 ∷ 97 ∷ 116 ∷ []

-- logit.arg_names
abbrev pub names_key : Bytes
names_key = 108 ∷ 111 ∷ 103 ∷ 105 ∷ 116 ∷ 46 ∷ 97 ∷ 114 ∷ 103 ∷ 95 ∷ 110 ∷ 97 ∷ 109 ∷ 101 ∷ 115 ∷ []

-- logit.logger_index
abbrev pub index_key : Bytes
index_key =
    108 ∷ 111 ∷ 103 ∷ 105 ∷ 116 ∷ 46 ∷ 108 ∷ 111 ∷ 103 ∷ 103 ∷ 101 ∷ 114 ∷ 95 ∷ 105 ∷ 110 ∷ 100
    ∷ 101 ∷ 120 ∷ []

-- logit.raw_mode
abbrev pub raw_key : Bytes
raw_key = 108 ∷ 111 ∷ 103 ∷ 105 ∷ 116 ∷ 46 ∷ 114 ∷ 97 ∷ 119 ∷ 95 ∷ 109 ∷ 111 ∷ 100 ∷ 101 ∷ []

-- logit.print_mode
abbrev pub print_key : Bytes
print_key =
    108 ∷ 111 ∷ 103 ∷ 105 ∷ 116 ∷ 46 ∷ 112 ∷ 114 ∷ 105 ∷ 110 ∷ 116 ∷ 95 ∷ 109 ∷ 111 ∷ 100 ∷ 101 ∷ []

-- logit.fmt_mode
abbrev pub fmt_key : Bytes
fmt_key = 108 ∷ 111 ∷ 103 ∷ 105 ∷ 116 ∷ 46 ∷ 102 ∷ 109 ∷ 116 ∷ 95 ∷ 109 ∷ 111 ∷ 100 ∷ 101 ∷ []

-- {"resourceLogs":[{"resource":{"attributes":[
abbrev pub payload_start : Bytes
payload_start =
    123 ∷ 34 ∷ 114 ∷ 101 ∷ 115 ∷ 111 ∷ 117 ∷ 114 ∷ 99 ∷ 101 ∷ 76 ∷ 111 ∷ 103 ∷ 115 ∷ 34 ∷ 58 ∷ 91
    ∷ 123 ∷ 34 ∷ 114 ∷ 101 ∷ 115 ∷ 111 ∷ 117 ∷ 114 ∷ 99 ∷ 101 ∷ 34 ∷ 58 ∷ 123 ∷ 34 ∷ 97 ∷ 116 ∷ 116
    ∷ 114 ∷ 105 ∷ 98 ∷ 117 ∷ 116 ∷ 101 ∷ 115 ∷ 34 ∷ 58 ∷ 91 ∷ []

-- ]},"scopeLogs":[{"scope":{"name":"logit-cpp"},"logRecords":[
abbrev pub scope_start : Bytes
scope_start =
    93 ∷ 125 ∷ 44 ∷ 34 ∷ 115 ∷ 99 ∷ 111 ∷ 112 ∷ 101 ∷ 76 ∷ 111 ∷ 103 ∷ 115 ∷ 34 ∷ 58 ∷ 91 ∷ 123 ∷ 34
    ∷ 115 ∷ 99 ∷ 111 ∷ 112 ∷ 101 ∷ 34 ∷ 58 ∷ 123 ∷ 34 ∷ 110 ∷ 97 ∷ 109 ∷ 101 ∷ 34 ∷ 58 ∷ 34 ∷ 108
    ∷ 111 ∷ 103 ∷ 105 ∷ 116 ∷ 45 ∷ 99 ∷ 112 ∷ 112 ∷ 34 ∷ 125 ∷ 44 ∷ 34 ∷ 108 ∷ 111 ∷ 103 ∷ 82 ∷ 101
    ∷ 99 ∷ 111 ∷ 114 ∷ 100 ∷ 115 ∷ 34 ∷ 58 ∷ 91 ∷ []

-- ]}]}]}
abbrev pub payload_end : Bytes
payload_end = 93 ∷ 125 ∷ 93 ∷ 125 ∷ 93 ∷ 125 ∷ []

-- service.name
abbrev pub service_key : Bytes
service_key = 115 ∷ 101 ∷ 114 ∷ 118 ∷ 105 ∷ 99 ∷ 101 ∷ 46 ∷ 110 ∷ 97 ∷ 109 ∷ 101 ∷ []

-- service.namespace
abbrev pub namespace_key : Bytes
namespace_key =
    115 ∷ 101 ∷ 114 ∷ 118 ∷ 105 ∷ 99 ∷ 101 ∷ 46 ∷ 110 ∷ 97 ∷ 109 ∷ 101 ∷ 115 ∷ 112 ∷ 97 ∷ 99 ∷ 101
    ∷ []

-- service.instance.id
abbrev pub instance_key : Bytes
instance_key =
    115 ∷ 101 ∷ 114 ∷ 118 ∷ 105 ∷ 99 ∷ 101 ∷ 46 ∷ 105 ∷ 110 ∷ 115 ∷ 116 ∷ 97 ∷ 110 ∷ 99 ∷ 101 ∷ 46
    ∷ 105 ∷ 100 ∷ []

-- deployment.environment.name
abbrev pub environment_key : Bytes
environment_key =
    100 ∷ 101 ∷ 112 ∷ 108 ∷ 111 ∷ 121 ∷ 109 ∷ 101 ∷ 110 ∷ 116 ∷ 46 ∷ 101 ∷ 110 ∷ 118 ∷ 105 ∷ 114
    ∷ 111 ∷ 110 ∷ 109 ∷ 101 ∷ 110 ∷ 116 ∷ 46 ∷ 110 ∷ 97 ∷ 109 ∷ 101 ∷ []
