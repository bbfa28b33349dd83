-- ===== src/Client/Subscription/Resources.antt =====
-- RWSClient::SubscriptionResources of src/rws_client.cpp.
use abb_librws.Base.{Text, codes, List, [], ◌∷◌, ◌++◌}
use abb_librws.SystemConstants.Identifiers.{identifiers}
use abb_librws.Client.Types.{SubscriptionResource, Priority, RapidResource}
use abb_librws.Client.Constants.{rw_iosystem_signals, rw_rapid_symbol_data_rapid}

-- add
unfoldable pub add : Text → Priority → List SubscriptionResource → List SubscriptionResource
add resource_uri priority resources =
    resources ++ record { resource_uri = resource_uri; priority = priority } ∷ []

-- addIOSignal
unfoldable pub add_io_signal :
    Text → Priority → List SubscriptionResource → List SubscriptionResource
add_io_signal iosignal priority resources =
    add (rw_iosystem_signals ++ codes "/" ++ iosignal ++ codes ";" ++ identifiers.state) priority
      resources

-- addRAPIDPersistantVariable
unfoldable pub add_rapid_persistant_variable :
    RapidResource → Priority → List SubscriptionResource → List SubscriptionResource
add_rapid_persistant_variable resource priority resources =
    add
      (rw_rapid_symbol_data_rapid
        ++ codes "/"
        ++ resource.task
        ++ codes "/"
        ++ resource.module_name
        ++ codes "/"
        ++ resource.name
        ++ codes ";"
        ++ identifiers.value)
      priority resources
