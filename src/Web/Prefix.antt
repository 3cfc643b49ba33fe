-- ===== src/Web/Prefix.antt =====
-- A reader of URLs that takes the address away from the front of a text with a scheme, for the small
-- runs.
use vit_testing.Prelude.{none, ◌++◌, ◌∷◌, if◌then◌else◌}
use vit_testing.Prelude.Text.{Text, codes, contains, starts_with, strip_prefix}
use vit_testing.Prelude.Text.Laws.{strip_prefix-append}
use vit_testing.Web.{Urls, KeepsPaths, RefusesRelative}

abbrev pub prefix_urls : Urls
prefix_urls = record {
  path_at = λ address url. if contains (codes ":") url then strip_prefix address url else none;
}

pub prefix_urls-KeepsPaths : (rest : Text) → KeepsPaths prefix_urls (codes "http:" ++ rest)
unfolding contains starts_with strip_prefix
prefix_urls-KeepsPaths rest path clean = strip_prefix-append (codes "http:" ++ rest) (b'/' ∷ path)

pub prefix_urls-RefusesRelative : (address : Text) → RefusesRelative prefix_urls address
prefix_urls-RefusesRelative address text relative = rw relative
