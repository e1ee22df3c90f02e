-- ===== src/Curl/HttpVersion.antt =====
-- bunsan/curl/src/http_version.cpp: the versions of HTTP that libcurl knows, and their numbers.
use bacs.Base.{ℕ, Option, none, some, nat_eq, if◌then◌else◌}

pub data HttpVersion : Type 0 where
  http_none http_1_0 http_1_1 http_2_0 http_2tls http_2_prior_knowledge : HttpVersion

-- The constructor of http_version_pair.
unfoldable pub version_pair : HttpVersion → ℕ × ℕ
version_pair http_none = (0, 0)
version_pair http_1_0 = (1, 0)
version_pair http_1_1 = (1, 1)
version_pair http_2_0 = (2, 0)
version_pair http_2tls = (2, 0)
version_pair http_2_prior_knowledge = (2, 0)

-- `operator http_version`; `none` is the exception for a version that is not supported.
unfoldable pub to_http_version : ℕ → ℕ → Option HttpVersion
to_http_version major minor =
    if nat_eq major 1
    then (if nat_eq minor 0 then some http_1_0 else if nat_eq minor 1 then some http_1_1 else none)
    else if nat_eq major 2
    then if nat_eq minor 0 then some http_2_0 else none
    else none
