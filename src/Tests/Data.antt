-- ===== src/Tests/Data.antt =====
-- The releases and the stores that the tests share.
use aws_ecommerce_k8s.Base.{ℕ, [], keep_if}
use aws_ecommerce_k8s.Base.Bytes.{Bytes, bytes, str_eq, contains, split, trim_prefix}
use aws_ecommerce_k8s.Base.Int.{pos}
use aws_ecommerce_k8s.Base.Decimal.{atoi, itoa}
use aws_ecommerce_k8s.Base.Assoc.{lookup, insert}
use aws_ecommerce_k8s.Base.Sort.{sort_by}
use aws_ecommerce_k8s.Release.Status.{Status, status_deployed, status_superseded}
use aws_ecommerce_k8s.Release.Defs.{Release}
use aws_ecommerce_k8s.Release.Sorter.{sort_by_revision, reverse_sorted}
use aws_ecommerce_k8s.Driver.Interface.{Driver}
use aws_ecommerce_k8s.Driver.Labels
use aws_ecommerce_k8s.Driver.Records
use aws_ecommerce_k8s.Driver.Records.{new_record, labels_of}
use aws_ecommerce_k8s.Driver.Memory.{
  Memory, create, update, delete, get, query, collect, collect_releases, collect_records, key_name,
  records_of, releases_in, store, ensure_namespace, found, new_memory, memory_driver,
}
use aws_ecommerce_k8s.Driver.Memory.Query.{revisions}
use aws_ecommerce_k8s.Storage.Key.{make_key}
use aws_ecommerce_k8s.Driver.Memory.Valid.{IsValid, new_memory-IsValid}
use aws_ecommerce_k8s.Driver.Memory.Keeps.{operations-IsValid}
use aws_ecommerce_k8s.Driver.Memory.Refine.{key_of}
use aws_ecommerce_k8s.Storage.{Storage}

abbrev pub release : Bytes → ℕ → Status → Release
release name version status = record {
  name = name;
  info = record {
    first_deployed = 0;
    last_deployed = 0;
    deleted = 0;
    description = [];
    status = status;
    notes = [];
  };
  chart = [];
  config = [];
  manifest = [];
  hooks = [];
  version = pos version;
  namespace = bytes "default";
  labels = [];
}

abbrev pub shop : Bytes
shop = bytes "shop"

-- Version 2 is deployed, and version 1 was superseded by it.
abbrev pub first : Release
first = release shop 1 status_superseded

abbrev pub second : Release
second = release shop 2 status_deployed

abbrev pub third : Release
third = release shop 3 status_deployed

abbrev pub one : Memory
one = (create (key_of first) first new_memory).1

abbrev pub two : Memory
two = (create (key_of second) second one).1

pub one-IsValid : IsValid one
one-IsValid = (operations-IsValid new_memory new_memory-IsValid).0 first

pub two-IsValid : IsValid two
two-IsValid = (operations-IsValid one one-IsValid).0 second

abbrev pub full_store : Storage Memory
full_store = record { driver = two; max_history = pos 2 }

-- The in-memory driver with all that its methods compute with: a test that unfolds it can run them.
unfoldable pub runs : Driver Memory
unfolding create update delete get query collect collect_releases collect_records key_name
    records_of releases_in store ensure_namespace found lookup insert str_eq new_record labels_of
    make_key Records.add Records.exists Records.index Records.get Records.at Records.remove
    Records.replace sort_by contains split trim_prefix atoi itoa Labels.matches Labels.from_map
    keep_if sort_by_revision reverse_sorted revisions
runs = memory_driver
