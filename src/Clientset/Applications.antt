-- ===== src/Clientset/Applications.antt =====
-- clientset/v1alpha1/sqbapplication.go: the client of applications.
use elastic_env_operator.Base.{String, true, List, Exec}
use elastic_env_operator.Api.Core.{Raw}
use elastic_env_operator.Api.Types.{SqbApplication}
use elastic_env_operator.Clientset.Rest.{Rest, ListOptions, TypedClient, timeout_of}

abbrev pub application_resource : String
application_resource = "sqbapplications"

module _ {World : Type 0} (rest : Rest World SqbApplication) (namespace : String) where
  unfoldable pub get : String → Raw → Exec World SqbApplication
  get name opts = rest.into (
      rest.params opts
        (rest.name name (rest.resource application_resource (rest.namespace namespace rest.get))))

  unfoldable pub list : ListOptions → Exec World (List SqbApplication)
  unfolding timeout_of
  list opts = rest.into_list (
      rest.timeout (timeout_of opts.timeout_seconds) (
        rest.list_params opts
          (rest.resource application_resource (rest.namespace namespace rest.get))))

  unfoldable pub watch : ListOptions → Exec World rest.Watch
  unfolding timeout_of
  watch opts = rest.watch (
      rest.timeout (timeout_of opts.timeout_seconds) (
        rest.list_params (record opts { watch = true })
          (rest.resource application_resource (rest.namespace namespace rest.get))))

  unfoldable pub create : SqbApplication → Raw → Exec World SqbApplication
  create object opts = rest.into (
      rest.body object (
        rest.params opts (rest.resource application_resource (rest.namespace namespace rest.post))))

  unfoldable pub update : SqbApplication → Raw → Exec World SqbApplication
  update object opts = rest.into (
      rest.body object (
        rest.params opts (
          rest.name object.name
            (rest.resource application_resource (rest.namespace namespace rest.put)))))

  unfoldable pub delete : String → Raw → Exec World (Unit {0})
  delete name opts = rest.error (
      rest.options_body opts (
        rest.name name (rest.resource application_resource (rest.namespace namespace rest.delete))))

  unfoldable pub delete_collection : Raw → ListOptions → Exec World (Unit {0})
  unfolding timeout_of
  delete_collection opts list_opts = rest.error (
      rest.options_body opts (
        rest.list_params list_opts (
          rest.timeout (timeout_of list_opts.timeout_seconds)
            (rest.resource application_resource (rest.namespace namespace rest.delete)))))

  unfoldable pub patch : String → String → String → Raw → List String → Exec World SqbApplication
  patch name patch_type bytes opts sub_resources = rest.into (
      rest.bytes_body bytes (
        rest.params opts (
          rest.name name (
            rest.sub_resource sub_resources (
              rest.resource application_resource
                (rest.namespace namespace (rest.patch patch_type)))))))

  unfoldable pub client : TypedClient World SqbApplication rest.Watch
  unfolding get list watch create update delete delete_collection patch
  client = record {
    create = create;
    update = update;
    delete = delete;
    delete_collection = delete_collection;
    get = get;
    list = list;
    watch = watch;
    patch = patch;
  }
