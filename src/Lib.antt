-- ===== src/Lib.antt =====
-- Helm (helm-main), the package manager that this repository deploys its shop with: the storage of
-- releases, which `install`, `upgrade`, `rollback` and `uninstall` read and write, and the run of a
-- release's hooks.
--
-- The parts, and the files that model them:
--   Release     helm-main/pkg/release/v1 and helm-main/pkg/release/util: the release object with its
--               status (status.go), info (info.go) and hooks (hook.go), in Release/Status, Defs and
--               Hook; the filters (filter.go) in Release/Filter; the sorts (sorter.go) in
--               Release/Sorter; the order by kinds (kind_sorter.go) in Release/Kinds; the documents of
--               a stream (manifest.go) in Release/Manifest, and the hooks and other manifests among
--               them (manifest_sorter.go) in Release/ManifestSorter.
--   Driver      helm-main/pkg/storage/driver: the errors and the interfaces of driver.go in
--               Driver/Errors and Driver/Interface; labels.go in Driver/Labels; records.go in
--               Driver/Records; memory.go in Driver/Memory; util.go in Driver/Codec; secrets.go and
--               cfgmaps.go in Driver/Secrets and Driver/ConfigMaps, with the Kubernetes API that they
--               call as a record of functions in Driver/Objects. Driver/History is the interface of
--               laws that the actions take a driver with, and Driver/Memory/History fills it.
--   Storage     helm-main/pkg/storage/storage.go: the engine on top of any driver, in Storage, with
--               `makeKey` in Storage/Key, the label sets in Storage/Selectors and the loop of
--               `removeLeastRecent` that marks revisions in Storage/Prune.
--   Action      helm-main/pkg/action. Action/World is the state of the configuration (action.go),
--               Action/Errors the errors. hooks.go: Action/Hooks has which hooks an event runs and
--               their policies, Action/Hooks/Calls the calls of the Kubernetes client, and
--               Action/Hooks/Exec `execHook`. rollback.go is Action/Rollback; uninstall.go and
--               resource_policy.go are Action/Uninstall. Action/Kube is the client
--               (helm-main/pkg/kube/interface.go), a record of functions on the state of the cluster
--               that stands for any client.
--   Chart       helm-main/pkg/chart/v2/util: the values of a chart (values.go) in Chart/Values, the
--               chart as far as it is looked into (helm-main/pkg/chart/v2/chart.go) in Chart/Defs,
--               the merge of values (coalesce.go) in Chart/Coalesce, tables and values at a path
--               (values.go) in Chart/Paths, names (validate_name.go) in Chart/Names.
--   Base        what Go and its standard library give: strings as bytes, `int` as integers, maps
--               as association lists, `strings.Split` and `TrimPrefix`, `strconv.Atoi` and `Itoa`,
--               `sort.Sort`, `strings.TrimSpace` and `ToLower` (Base/Space), and regular expressions
--               matched by derivatives (Base/Regexp).
--
-- State and operations. A function of Go that changes its receiver takes the state and returns it
-- beside its result; an error is a value of `Error`, and a pointer that may be nil is an `Option`.
-- `Driver D` is the interface of driver.go over a state `D`; `Storage D` is the `Storage` struct, so
-- that the engine runs on any driver, and `memory_driver` fills the interface. Driver/Memory/Spec
-- gives the abstract view of the memory driver, a partial function from a namespace, a name and a
-- revision to a release, and Driver/Memory/Refine relates each operation to it. Driver/Memory/Valid
-- has the well-formedness of a store.
--
-- `execHook` and the actions are each a `Step` (Action/Step): a function from the world (cluster, storage, release) to a
-- result or an error and the world after it, where what was changed before an error stays changed. A
-- pointer to a hook is its place in the release, so that a hook that is run twice, or read again
-- after it was changed, is the same hook. What `recordRelease` stores is a copy of the release at
-- that moment, as in the drivers that encode it.
--
-- Choices. A Go map is listed in the order of insertion, where Go has any order; the theorems on
-- queries speak of one release in one namespace, whose records are a sorted slice. `sort.Sort` is
-- an insertion sort: the histories have distinct revisions, so their sorted order is unique. The
-- lock of a method makes it one step. An `int` is an unbounded integer, and a theorem that reads a
-- revision back from a key asks for 64 bits. Times are seconds since the epoch. Loops are structural
-- recursion, but for `coalesceTablesFullKey`, which goes down to one more than the depth of its
-- source: a nested table is less deep than the one it stands in, so this is enough. The maps that it
-- merges are values: its callers here give it copies, so nothing else points at them.
--
-- The drivers for secrets and config maps are over any API and any JSON, gzip and base64 codec, and what
-- those document is a hypothesis of the theorems. JSON need not keep all of a chart (its raw files, parent
-- and dependencies are not exported) or of a configuration (numbers become floats), and is asked to keep
-- only texts that are UTF-8; so a release is read back with what JSON keeps of these two. The API may
-- refuse any object, and changes nothing then. Tests/Secrets has a codec and an API that keep to this. White
-- space and lower case are those of ASCII. Where an action returns a value beside an error, the model has
-- the error.
--
-- Not modelled: logging, the SQL driver, the actions other than rollback, uninstall and hooks (install
-- and upgrade are next), the rest of the chart packages (globals, dependencies, loading), the Kubernetes
-- clients, the command line, and the rest of the repository (the shop's services and frontend, and the
-- deployment files), which is not Go.
pub mod Base
pub mod Release
pub mod Driver
pub mod Storage
pub mod Action
pub mod Chart
mod Tests
